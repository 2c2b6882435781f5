-- ===== src/Pve/Polled.antt =====
-- What the cache holds after a poll of a PVE instance.
use glint.Common.{
  ℕ, ◌≡◌, refl, sym, inl, inr, Bool, true, false, Option, none, some, List, [], ◌∷◌, arith, All,
  All-append, All-map, any, map, fold, if◌then◌else◌, Option-cases,
}
use mathlib.Core.Path.{subst}
use glint.Common.Int.{ℤ}
use glint.Common.Text.{Str, str, str_eq, str_eq_iff}
use glint.Common.Float.{Float}
use glint.Common.Dict.{Dict, insert, lookup, lookup-insert, All-insert, str_key, int_key}
use glint.Model.{Node, Guest}
use glint.Cache.{
  Cache, Heap, Snapshot, view, update_nodes, update_guests, update_disks, set_last_poll,
}
use glint.Cache.Copies.{AllInstanceRefs, Below}
use glint.Cache.Isolation.{apply_op, polled}
use glint.Cache.Polls.{lookup-polled}
use glint.Pve.Parse.{PveApi, RawGuest, parse_guest, collect_guests, guests_of_type}
use glint.Pve.Workers.{
  Event, node_read, guests_read, disks_read, Gathered, nothing, apply_event, work, Interleaved,
}
use glint.Pve.Sections.{All-Interleaved}
use glint.Pve.Schedule.{work-All, polled_node, polled_guests, gather-node_map}
use glint.Pve.{PveSettings, PveCollector, gather, publish, finish, workers, disks_due}

-- What a reader of the cache finds.
unfoldable pub shown : {F : Type 0} → Cache F × Heap F → Snapshot F
shown (c, h) = view h c

-- The node that a reader finds.
unfoldable pub node_at : {F : Type 0} → Str → Str → Snapshot F → Option (Node F)
node_at inst k s = elim (lookup inst s.nodes) [ none ↦ none | some m ↦ lookup k m ]

-- The guests that the cache has of a cluster.
unfoldable pub guests_at : {F : Type 0} → Str → Snapshot F → Dict ℤ (Guest F)
guests_at cluster s = elim (lookup cluster s.guests) [ none ↦ [] | some m ↦ m ]

-- The guest stands on one of the named nodes.
abbrev pub StandsOn : {F : Type 0} → List Str → Guest F → Type 0
StandsOn names g = any (λ name. str_eq name g.node) names ≡ true

module _ {F : Type 0} (names : List Str) where
  abbrev IsPlaced : Event F → Type 0
  IsPlaced (node_read name n) = Unit
  IsPlaced (guests_read gs) = All (StandsOn names) gs
  IsPlaced (disks_read ds) = Unit

  guests-StandsOn :
      (gs : List (Guest F)) (m : Dict ℤ (Guest F))
      → All (StandsOn names) gs
      → All (λ e. StandsOn names e.1) m
      → All (λ e. StandsOn names e.1) (fold (λ x. insert x.vmid x) gs m)
  unfolding fold
  guests-StandsOn [] m h k = k
  guests-StandsOn (x ∷ gs) m h k =
      guests-StandsOn gs (insert x.vmid x m) h.1 (All-insert (StandsOn names) x.vmid x m h.0 k)

  guest_map-StandsOn :
      (es : List (Event F)) (g : Gathered F)
      → All IsPlaced es
      → All (λ e. StandsOn names e.1) g.guest_map
      → All (λ e. StandsOn names e.1) (fold apply_event es g).guest_map
  unfolding fold apply_event
  guest_map-StandsOn [] g h k = k
  guest_map-StandsOn (node_read name n ∷ es) g h k =
      guest_map-StandsOn es (apply_event (node_read name n) g) h.1 k
  guest_map-StandsOn (guests_read gs ∷ es) g h k =
      guest_map-StandsOn es (apply_event (guests_read gs) g) h.1
        (guests-StandsOn gs g.guest_map h.0 k)
  guest_map-StandsOn (disks_read ds ∷ es) g h k =
      guest_map-StandsOn es (apply_event (disks_read ds) g) h.1 k

module _ (fl : Float) (api : PveApi fl.Carrier) (inst cluster : Str) where
  open fl use {Carrier}

  parsed-On :
      (node kind : Str) (raws : List (RawGuest Carrier))
      → All (λ g. g.node ≡ node) (map (parse_guest inst node cluster kind) raws)
  unfolding parse_guest
  parsed-On node kind [] = tt
  parsed-On node kind (r ∷ raws) = (refl, parsed-On node kind raws)

  guests_of_type-On :
      (node kind : Str) → All (λ g. g.node ≡ node) (guests_of_type api inst cluster node kind)
  unfolding guests_of_type
  guests_of_type-On node kind = elim (Option-cases (api.guests node kind)) [
    | inl e ↦ rw (e, guests_of_type) tt
    | inr (raws, e) ↦ rw (e, guests_of_type) (parsed-On node kind raws)
  ]

  polled_guests-On :
      (node : Str) → All (λ g. g.node ≡ node) (polled_guests fl api inst cluster node)
  unfolding polled_guests collect_guests
  polled_guests-On node = elim (Option-cases (api.node_status node)) [
    | inl e ↦ rw (e, polled_guests) tt
    | inr (raw, e) ↦
        rw (e, polled_guests)
          (All-append (λ g. g.node ≡ node) (guests_of_type api inst cluster node (str "lxc"))
            (guests_of_type api inst cluster node (str "qemu")) (guests_of_type-On node _)
            (guests_of_type-On node _))
  ]

  work-IsPlaced :
      (names : List Str) (due : Bool) (node : Str)
      → any (λ name. str_eq name node) names ≡ true
      → All (IsPlaced names) (work fl api inst cluster due node)
  work-IsPlaced names due node h =
      work-All fl api inst cluster due (IsPlaced names) node (λ n e. tt)
        (All-map (λ g e. subst (λ x. any (λ name. str_eq name x) names ≡ true) (sym e) h)
          (polled_guests fl api inst cluster node) (polled_guests-On node))
        (λ ds. tt)

  map-work-IsPlaced :
      (names : List Str) (due : Bool) (part : List Str)
      → ((node : Str)
          → any (λ name. str_eq name node) part ≡ true
          → any (λ name. str_eq name node) names ≡ true)
      → All (All (IsPlaced names)) (map (work fl api inst cluster due) part)
  map-work-IsPlaced names due [] h = tt
  map-work-IsPlaced names due (node ∷ part) h = (
    work-IsPlaced names due node (h node (ground (arith, str_eq_iff node node))),
    map-work-IsPlaced names due part (λ k e. h k (ground (arith, e))),
  )

module _ (fl : Float) (inst cluster : Str) (now : ℕ) (g : Gathered fl.Carrier)
    (c : Cache fl.Carrier) (h : Heap fl.Carrier) where
  publish-nodes :
      (due : Bool)
      → (shown (publish fl inst cluster due now g (c, h))).nodes
        ≡ (shown (apply_op (polled inst g.node_map) (c, h))).nodes
  unfolding publish shown view apply_op update_nodes update_guests update_disks set_last_poll
  publish-nodes true = refl
  publish-nodes false = refl

  publish-guests :
      (due : Bool)
      → (shown (publish fl inst cluster due now g (c, h))).guests
        ≡ insert cluster g.guest_map c.guests
  unfolding publish shown view update_nodes update_guests update_disks set_last_poll
  publish-guests true = refl
  publish-guests false = refl

module _ (fl : Float) (api : PveApi fl.Carrier) (cfg : PveSettings) (now : ℕ)
    (p : PveCollector) where
  open fl use {Carrier}

  -- After a poll on a cache whose addresses are allocated, in whatever order its workers came to their locked
  -- sections: of the polled instance the cache shows, under the name of each node that was found online and
  -- whose status the API gave, the node of that status, and no other node; what it shows of the nodes of any other
  -- instance has not changed.
  pub finish-nodes :
      (es : List (Event Carrier)) (c : Cache Carrier) (h : Heap Carrier) (j k : Str)
      → Interleaved (workers fl cfg now api p) es
      → AllInstanceRefs (Below h.next) c.nodes
      → node_at j k (shown (finish fl cfg now es p (c, h)).1) ≡ (
          if str_eq cfg.name j
          then if any (λ name. str_eq name k) p.nodes
            then polled_node fl api cfg.name p.cluster_id k
            else none
          else node_at j k (view h c))
  unfolding finish publish node_at workers shown
  finish-nodes es c h j k i below =
      let due = disks_due p.last_disk_poll now cfg.disk_poll_interval in
      let g = gather fl es in
      ground (
        arith,
        publish-nodes fl cfg.name p.cluster_id now g c h due,
        lookup-polled cfg.name j g.node_map c h below,
        gather-node_map fl api cfg.name p.cluster_id due p.nodes es k i,
      )

  -- After a poll, in whatever order its workers came to their locked sections, every guest that the cache has of the
  -- polled cluster stands on a node that this poll found online.
  pub finish-guests :
      (es : List (Event Carrier)) (c : Cache Carrier) (h : Heap Carrier)
      → Interleaved (workers fl cfg now api p) es
      → All
          (λ e. StandsOn p.nodes e.1)
          (guests_at p.cluster_id (shown (finish fl cfg now es p (c, h)).1))
  unfolding finish publish guests_at workers shown gather
  finish-guests es c h i =
      let due = disks_due p.last_disk_poll now cfg.disk_poll_interval in
      rw
        (
          publish-guests fl cfg.name p.cluster_id now (gather fl es) c h due,
          guests_at,
          lookup-insert p.cluster_id p.cluster_id (gather fl es).guest_map c.guests,
          (str_eq_iff p.cluster_id p.cluster_id).1 refl,
        )
        (guest_map-StandsOn p.nodes es nothing
          (All-Interleaved (IsPlaced p.nodes) i
            (map-work-IsPlaced fl api cfg.name p.cluster_id p.nodes due p.nodes (λ k e. e)))
          tt)
