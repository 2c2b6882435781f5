-- ===== src/Pve/Schedule.antt =====
-- What the workers gather, whatever the order in which they come to their locked sections.
use glint.Common.{
  ◌≡◌, refl, ◌∙◌, inl, inr, Bool, true, false, ◌&&◌, Option, none, some, List, [], ◌∷◌, arith, All,
  any, map, if◌then◌else◌, Bool-cases, Option-cases,
}
use glint.Common.Int.{ℤ, eqb_ℤ}
use glint.Common.Text.{Str, str_eq, str_eq_iff}
use glint.Common.Float.{Float}
use glint.Common.Dict.{lookup, str_key, int_key}
use glint.Model.{Node, Guest, Disk}
use glint.Pve.Parse.{PveApi, RawNode, parse_node_status, collect_guests}
use glint.Pve.Workers.{
  Event, node_read, guests_read, disks_read, nothing, work, disk_events, Interleaved,
}
use glint.Pve.{gather}
use glint.Pve.Sections.{
  All-Interleaved, GuestsFrom, NodeFrom, any-Interleaved, lookup-guest_map, lookup-node_map,
  reads_guest, reads_node,
}

module _ (fl : Float) (api : PveApi fl.Carrier) (inst cluster : Str) where
  open fl use {Carrier}

  -- The node that a poll makes of the API's answer for a name.
  unfoldable pub polled_node : Str → Option (Node Carrier)
  polled_node name = elim (api.node_status name) [
    | none ↦ none
    | some raw ↦ some (parse_node_status fl api.parse_float inst name raw)
  ]

  -- The guests that the worker of a node brings: none where the node's status cannot be read.
  unfoldable pub polled_guests : Str → List (Guest Carrier)
  polled_guests name = elim (api.node_status name) [
    | none ↦ []
    | some raw ↦ collect_guests api inst cluster name
  ]

module _ (fl : Float) (api : PveApi fl.Carrier) (inst cluster : Str) (due : Bool) where
  open fl use {Carrier}

  -- What holds of a section with disks holds of the disk sections of a node.
  disk_events-All {κ} :
      (P : Event Carrier → Type κ)
      → ((ds : List Disk) → P (disks_read ds))
      → (name : Str) → All P (disk_events fl api inst cluster due name)
  unfolding disk_events
  disk_events-All P h name = elim (Option-cases (api.disks name)) [
    | inl e ↦ rw (e, disk_events) tt
    | inr (raws, e) ↦ elim (Bool-cases due) [
      | inl d ↦ rw (e, d, disk_events) (h _, tt)
      | inr d ↦ rw (e, d, disk_events) tt
    ]
  ]

  -- A predicate on the sections of a worker, from what it asks of the node and of the guests.
  pub work-All {κ} :
      (P : Event Carrier → Type κ) (name : Str)
      → ((n : Node Carrier) → polled_node fl api inst cluster name ≡ some n → P (node_read name n))
      → P (guests_read (polled_guests fl api inst cluster name))
      → ((ds : List Disk) → P (disks_read ds))
      → All P (work fl api inst cluster due name)
  unfolding work polled_node polled_guests
  work-All P name hn hg hd = from (api.node_status name) refl
    where
      from :
          (o : Option (RawNode Carrier))
          → api.node_status name ≡ o
          → All P (work fl api inst cluster due name)
      from none e = rw (e, work) tt
      from (some raw) e =
          let n = parse_node_status fl api.parse_float inst name raw in
          rw (e, work)
            (
              hn n (rw (e, polled_node) refl),
              (rw (e, polled_guests) at hg, disk_events-All P hd name),
            )

  disk_events-reads :
      (p : Event Carrier → Bool)
      → ((ds : List Disk) → p (disks_read ds) ≡ false)
      → (name : Str) → any p (disk_events fl api inst cluster due name) ≡ false
  unfolding disk_events
  disk_events-reads p h name = elim (Option-cases (api.disks name)) [
    | inl e ↦ rw (e, disk_events) refl
    | inr (raws, e) ↦ elim (Bool-cases due) [
      | inl d ↦ rw (e, d, disk_events) (rw h refl)
      | inr d ↦ rw (e, d, disk_events) refl
    ]
  ]

  -- The API answers about the node.
  abbrev answers : Option (RawNode Carrier) → Bool
  answers none = false
  answers (some raw) = true

  reads_node-work :
      (k name : Str)
      → any (reads_node k) (work fl api inst cluster due name)
        ≡ (str_eq name k && answers (api.node_status name))
  unfolding work
  reads_node-work k name = from (api.node_status name) refl
    where
      from :
          (o : Option (RawNode Carrier))
          → api.node_status name ≡ o
          → any (reads_node k) (work fl api inst cluster due name) ≡ (str_eq name k && answers o)
      from none e = rw (e, work) (ground arith)
      from (some raw) e =
          rw (e, work) (ground (arith, disk_events-reads (reads_node k) (λ ds. refl) name))

  reads_guest-work :
      (k : ℤ) (name : Str)
      → any (reads_guest k) (work fl api inst cluster due name)
        ≡ any (λ x. eqb_ℤ x.vmid k) (polled_guests fl api inst cluster name)
  unfolding work polled_guests
  reads_guest-work k name = from (api.node_status name) refl
    where
      from :
          (o : Option (RawNode Carrier))
          → api.node_status name ≡ o
          → any (reads_guest k) (work fl api inst cluster due name)
            ≡ any (λ x. eqb_ℤ x.vmid k) (polled_guests fl api inst cluster name)
      from none e = rw (e, work, polled_guests) refl
      from (some raw) e =
          rw (e, work, polled_guests)
            (ground (arith, disk_events-reads (reads_guest k) (λ ds. refl) name))

  -- The nodes that a poll leaves in its map: those of the names that the API answers about.
  abbrev node_of : List Str → Str → Option (Node Carrier)
  node_of names k =
      if any (λ name. str_eq name k) names then polled_node fl api inst cluster k else none

  nodes-work :
      (k : Str) (names : List Str)
      → (if any (any (reads_node k)) (map (work fl api inst cluster due) names)
          then polled_node fl api inst cluster k
          else none)
        ≡ node_of names k
  unfolding polled_node
  nodes-work k [] = refl
  nodes-work k (name ∷ names) =
      ground (arith, nodes-work k names, reads_node-work k name, str_eq_iff name k)

  -- The guests of any of the nodes, by their VMID.
  abbrev pub some_guest : List Str → ℤ → Bool
  some_guest names k =
      any (λ name. any (λ x. eqb_ℤ x.vmid k) (polled_guests fl api inst cluster name)) names

  guests-work :
      (k : ℤ) (names : List Str)
      → any (any (reads_guest k)) (map (work fl api inst cluster due) names) ≡ some_guest names k
  guests-work k [] = refl
  guests-work k (name ∷ names) = ground (arith, guests-work k names, reads_guest-work k name)

  pub map-work {κ} :
      (P : Event Carrier → Type κ) (names : List Str)
      → ((name : Str) → All P (work fl api inst cluster due name))
      → All (All P) (map (work fl api inst cluster due) names)
  map-work P [] h = tt
  map-work P (name ∷ names) h = (h name, map-work P names h)

  guests-From :
      (f : ℤ → Option (Guest Carrier)) (names : List Str)
      → All (λ name. All (λ x. f x.vmid ≡ some x) (polled_guests fl api inst cluster name)) names
      → All (All (GuestsFrom f)) (map (work fl api inst cluster due) names)
  guests-From f [] h = tt
  guests-From f (name ∷ names) h =
      (work-All (GuestsFrom f) name (λ n e. tt) h.0 (λ ds. tt), guests-From f names h.1)

  -- In whatever order the workers come to their locked sections, the poll ends with the same nodes: under the
  -- name of each of its nodes that the API answers about the node of that answer, and nothing else.
  pub gather-node_map :
      (names : List Str) (es : List (Event Carrier)) (k : Str)
      → Interleaved (map (work fl api inst cluster due) names) es
      → lookup k (gather fl es).node_map
        ≡ (if any (λ name. str_eq name k) names then polled_node fl api inst cluster k else none)
  unfolding gather lookup
  gather-node_map names es k i =
      lookup-node_map (polled_node fl api inst cluster) k es nothing (
        All-Interleaved (NodeFrom (polled_node fl api inst cluster)) i (
          map-work (NodeFrom (polled_node fl api inst cluster)) names (λ name.
            work-All (NodeFrom (polled_node fl api inst cluster)) name (λ n e. e) tt (λ ds. tt))))
      ∙ (rw (any-Interleaved (reads_node k) i) (nodes-work k names))

  -- Where a VMID determines the guest, over all nodes of the poll, the poll ends with the same guests in
  -- whatever order the workers come to their locked sections: those that the nodes have, under their VMIDs.
  pub gather-guest_map :
      (names : List Str) (es : List (Event Carrier)) (f : ℤ → Option (Guest Carrier)) (k : ℤ)
      → Interleaved (map (work fl api inst cluster due) names) es
      → All (λ name. All (λ x. f x.vmid ≡ some x) (polled_guests fl api inst cluster name)) names
      → lookup k (gather fl es).guest_map ≡ (if some_guest names k then f k else none)
  unfolding gather lookup
  gather-guest_map names es f k i h =
      lookup-guest_map f k es nothing (All-Interleaved (GuestsFrom f) i (guests-From f names h))
      ∙ (rw (any-Interleaved (reads_guest k) i, guests-work k names) refl)
