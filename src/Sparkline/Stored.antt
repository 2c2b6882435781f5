-- ===== src/Sparkline/Stored.antt =====
-- What the calls that a poll makes (internal/collector/pve.go) leave in the store (internal/store).
use glint.Common.{
  ℕ, ◌/◌, ◌≡◌, refl, ap, ◌∙◌, inl, inr, true, Option, some, List, [], ◌∷◌, ◌++◌, arith, All, any,
  fold, map, Bool-cases, Option-cases, if◌then◌else◌,
}
use glint.Common.Int.{ℤ, pos}
use glint.Common.Text.{Str, str_eq, str_eq_iff}
use glint.Common.Float.{Float}
use glint.Common.Dict.{Dict, eqb_ℤ_iff, lookup, pair_key, str_key, int_key, values}
use glint.Common.Time.{second}
use glint.Model.{Disk, Guest, Node, NodeSnapshot, SmartAttribute}
use glint.Pve.{
  PveCollector, PveSettings, StoreCall, insert_node_snapshot, insert_guest_snapshot, upsert_disk,
  insert_smart_snapshot, disk_calls, disks_due, gather, guest_snapshot, node_snapshot, store_calls,
  workers,
}
use glint.Pve.Parse.{PveApi, parse_node_status}
use glint.Pve.Workers.{Event, Interleaved, nothing}
use glint.Pve.Sections.{All-Interleaved}
use glint.Pve.Sections.{Brings, node_map-All}
use glint.Pve.Schedule.{gather-node_map, map-work, polled_node, work-All}
use glint.Store.Rows.{Database}
use glint.Store.{Store}
use glint.Store.Spec.{Contents, Op, change, disk_stored, guest_stored, node_stored, smart_stored}

-- A call of the poll, carried out; `now` is the time of UpsertDisk.
unfoldable pub op_of : {F : Type 0} → ℤ → StoreCall F → Op F
op_of now (insert_node_snapshot r) = node_stored true r
op_of now (insert_guest_snapshot r) = guest_stored true r
op_of now (upsert_disk x) = disk_stored true now x
op_of now (insert_smart_snapshot ts x) = smart_stored true ts x

fold-append {ℓ κ} :
    {A : Type ℓ} {S : Type κ} (f : A → S → S) (xs ys : List A) (s : S)
    → fold f (xs ++ ys) s ≡ fold f ys (fold f xs s)
unfolding fold
fold-append f [] ys s = refl
fold-append f (x ∷ xs) ys s = fold-append f xs ys (f x s)

module _ (fl : Float) (marshal : List SmartAttribute → Option Str) (now ts : ℤ) (inst : Str) where
  open fl use {Carrier}

  -- What the calls make of the contents.
  abbrev after : List (StoreCall Carrier) → Contents Carrier → Contents Carrier
  after calls c = fold (λ x. change marshal (op_of now x)) calls c

  after-nodes :
      (f : Str → Option (Node Carrier)) (ns : List (Node Carrier)) (k : Str) (n : Node Carrier)
      (c : Contents Carrier)
      → f k ≡ some n
      → All (λ x. f x.name ≡ some x) ns
      → (after (map (λ x. insert_node_snapshot (node_snapshot fl ts inst x)) ns) c).node_snapshots
          (ts, (inst, k))
        ≡ (if any (λ x. str_eq x.name k) ns
            then some (node_snapshot fl ts inst n)
            else c.node_snapshots (ts, (inst, k)))
  unfolding fold change op_of node_snapshot
  after-nodes f [] k n c e h = refl
  after-nodes f (x ∷ ns) k n c e h =
      let c' = change marshal (node_stored true (node_snapshot fl ts inst x)) c in
      after-nodes f ns k n c' e h.1 ∙ (elim (Bool-cases (str_eq x.name k)) [
        | inl t ↦
            let q = (str_eq_iff x.name k).0 t in
            let same : x ≡ n = cc in
            rw ((eqb_ℤ_iff ts ts).1 refl, (str_eq_iff inst inst).1 refl, t, same) (ground arith)
        | inr t ↦ rw ((eqb_ℤ_iff ts ts).1 refl, (str_eq_iff inst inst).1 refl, t) refl
      ])

  after-guests :
      (gs : List (Guest Carrier)) (c : Contents Carrier)
      → (after (map (λ x. insert_guest_snapshot (guest_snapshot fl ts inst x)) gs) c).node_snapshots
        ≡ c.node_snapshots
  unfolding fold change op_of
  after-guests [] c = refl
  after-guests (x ∷ gs) c =
      after-guests gs (change marshal (guest_stored true (guest_snapshot fl ts inst x)) c)

  smart_stored-nodes :
      (x : Disk) (c : Contents Carrier)
      → (change marshal (smart_stored true ts x) c).node_snapshots ≡ c.node_snapshots
  unfolding change
  smart_stored-nodes x c = elim (Option-cases (marshal x.attributes)) [
    | inl e ↦ rw (e, change) refl
    | inr (j, e) ↦ rw (e, change) refl
  ]

  after-disks :
      (ds : List Disk) (c : Contents Carrier)
      → (after (disk_calls fl ts ds) c).node_snapshots ≡ c.node_snapshots
  unfolding fold change op_of disk_calls
  after-disks [] c = refl
  after-disks (x ∷ ds) c =
      let c' = change marshal (disk_stored true now x) c in
      after-disks ds (change marshal (smart_stored true ts x) c') ∙ smart_stored-nodes x c'

fold-map {ℓ κ ι} :
    {A : Type ℓ} {B : Type κ} {S : Type ι} (f : B → S → S) (g : A → B) (xs : List A) (s : S)
    → fold f (map g xs) s ≡ fold (λ x. f (g x)) xs s
unfolding fold
fold-map f g [] s = refl
fold-map f g (x ∷ xs) s = fold-map f g xs (f (g x) s)

module _ {F : Type 0} where
  values-All {κ} :
      (P : Node F → Type κ) (m : Dict Str (Node F)) → All (λ e. P e.1) m → All P (values m)
  unfolding values
  values-All P [] h = tt
  values-All P ((k, n) ∷ m) h = (h.0, values-All P m h.1)

  values-any :
      (k : Str) (n : Node F) (m : Dict Str (Node F))
      → lookup k m ≡ some n
      → n.name ≡ k
      → any (λ x. str_eq x.name k) (values m) ≡ true
  unfolding values lookup
  values-any k n [] h e = cc
  values-any k n ((j, x) ∷ m) h e =
      ground (arith, values-any k n m, str_eq_iff j k, str_eq_iff x.name k, h, e)

module _ (fl : Float) (api : PveApi fl.Carrier) (cfg : PveSettings) (now : ℕ)
    (p : PveCollector) where
  open fl use {Carrier, mul, of_int}

  -- The node of a name has the name.
  pub polled_node-name :
      (k : Str) (n : Node Carrier)
      → polled_node fl api cfg.name p.cluster_id k ≡ some n
      → n.name ≡ k
  unfolding polled_node parse_node_status
  polled_node-name k n e = ground (arith, e)

  -- The poll's nodes are those that their names stand for.
  gather-named :
      (es : List (Event Carrier))
      → Interleaved (workers fl cfg now api p) es
      → All
          (λ x. polled_node fl api cfg.name p.cluster_id x.name ≡ some x)
          (values (gather fl es).node_map)
  unfolding workers gather
  gather-named es i =
      let P : Node Carrier → Type 0 =
        λ x. polled_node fl api cfg.name p.cluster_id x.name ≡ some x in
      let due = disks_due p.last_disk_poll now cfg.disk_poll_interval in
      values-All P (gather fl es).node_map (
        node_map-All P es nothing
          (All-Interleaved (Brings P) i (
            map-work fl api cfg.name p.cluster_id due (Brings P) p.nodes (λ name.
              work-All fl api cfg.name p.cluster_id due (Brings P) name
                (λ n e.
                  ap (λ k. polled_node fl api cfg.name p.cluster_id k) (polled_node-name name n e)
                  ∙ e)
                tt (λ ds. tt))))
          tt)

  module _ (d : Database Carrier) (marshal : List SmartAttribute → Option Str) where
    abbrev pub ops : List (Event Carrier) → List (Op Carrier)
    ops es =
        map (op_of (pos (now / second)))
          (store_calls fl (pos (now / second)) cfg.name (gather fl es))

    -- The table's rows, as contents.
    abbrev pub contents : Store d → Contents Carrier
    contents s = record {
      pve_instances = λ k. d.pve_instances.find k s.pve_instances;
      pbs_instances = λ k. d.pbs_instances.find k s.pbs_instances;
      disks = λ k. d.disks.find k s.disks;
      node_snapshots = λ k. d.node_snapshots.find k s.node_snapshots;
      guest_snapshots = λ k. d.guest_snapshots.find k s.guest_snapshots;
      smart_snapshots = λ k. d.smart_snapshots.find k s.smart_snapshots;
      backup_snapshots = λ k. d.backup_snapshots.find k s.backup_snapshots;
      datastore_snapshots = λ k. d.datastore_snapshots.find k s.datastore_snapshots;
      alert_log = d.alert_log.entries s.alert_log;
    }

    -- After the poll the contents have the node's row.
    pub stored-node :
        (es : List (Event Carrier)) (k : Str) (n : Node Carrier) (c : Contents Carrier)
        → Interleaved (workers fl cfg now api p) es
        → any (λ name. str_eq name k) p.nodes ≡ true
        → polled_node fl api cfg.name p.cluster_id k ≡ some n
        → (fold (change marshal) (ops es) c).node_snapshots (pos (now / second), (cfg.name, k))
          ≡ some (node_snapshot fl (pos (now / second)) cfg.name n)
    unfolding store_calls workers
    stored-node es k n c i on e =
        let ts = pos (now / second) in
        let g = gather fl es in
        let due = disks_due p.last_disk_poll now cfg.disk_poll_interval in
        let there : lookup k g.node_map ≡ some n =
          ground (arith, gather-node_map fl api cfg.name p.cluster_id due p.nodes es k i, on, e) in
        let f = polled_node fl api cfg.name p.cluster_id in
        let step : StoreCall Carrier → Contents Carrier → Contents Carrier =
          λ x. change marshal (op_of ts x) in
        let ns = values g.node_map in
        let gs = values g.guest_map in
        let calls_n : List (StoreCall Carrier) =
          map (λ x. insert_node_snapshot (node_snapshot fl ts cfg.name x)) ns in
        let calls_g : List (StoreCall Carrier) =
          map (λ x. insert_guest_snapshot (guest_snapshot fl ts cfg.name x)) gs in
        let calls_d = disk_calls fl ts g.disk_list in
        let at : Contents Carrier → Option (NodeSnapshot Carrier) =
          λ x. x.node_snapshots (ts, (cfg.name, k)) in
        let c1 = fold step calls_n c in
        ap at (
          fold-map (change marshal) (op_of ts) (calls_n ++ calls_g ++ calls_d) c
          ∙ fold-append step (calls_n ++ calls_g) calls_d c
          ∙ ap (fold step calls_d) (fold-append step calls_n calls_g c))
        ∙ ap (λ m. m (ts, (cfg.name, k)))
            (after-disks fl marshal ts ts cfg.name g.disk_list (fold step calls_g c1))
        ∙ ap (λ m. m (ts, (cfg.name, k))) (after-guests fl marshal ts ts cfg.name gs c1)
        ∙ after-nodes fl marshal ts ts cfg.name f ns k n c e (gather-named es i)
        ∙ (rw (values-any k n g.node_map there (polled_node-name k n e)) refl)
