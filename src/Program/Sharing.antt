-- ===== src/Program/Sharing.antt =====
-- The cache's pointers to nodes in a run of the program (internal/cache, internal/collector, internal/alerter).
use glint.Common.{
  ℕ, ◌≡◌, refl, sym, ap, ◌∙◌, inl, inr, Bool, true, false, Option, none, some, List, arith,
  Option-cases,
}
use mathlib.Core.Path.{subst}
use glint.Common.Text.{Str}
use glint.Common.Float.{Float}
use glint.Common.Dict.{Dict}
use glint.Cache.{
  Cache, Heap, Snapshot, set_last_poll, snapshot, update_backups, update_datastores, update_disks,
  update_guests, update_nodes, update_tasks, view,
}
use glint.Cache.Copies.{AllInstanceRefs, AllInstanceRefs-map, Below}
use glint.Cache.Isolation.{
  IsApart, Outside, apply_op, apply_op-IsApart, copied, measured, polled, snapshot-IsApart,
  view-snapshot,
}
use glint.Pbs
use glint.Pbs.{
  RawTask, PbsApi, collect_datastores, got, no_answer, note_tasks, status_error, ApiReply,
}
use glint.Pve.{finish, publish, gather, disks_due}
use glint.Pve.Workers.{Gathered}
use glint.Temperature
use glint.Temperature.{Sensors, parse_sensors}
use glint.Program.{
  Step, Steps, World, alerted, evaluated, here, pbs_polled, pve_polled, requested, start,
  temperature_read, then_step,
}

module _ {F : Type 0} (a b : ℕ) (h₀ : Heap F) where
  -- Only the nodes of the cache matter.
  same-IsApart :
      (c c' : Cache F) (h : Heap F)
      → c.nodes ≡ c'.nodes
      → IsApart a b h₀ (c, h)
      → IsApart a b h₀ (c', h)
  same-IsApart c c' h e inv = record {
    allocated = inv.allocated;
    apart = subst (λ m. AllInstanceRefs (Outside a b h.next) m) e inv.apart;
    frame = inv.frame;
  }

module _ {F : Type 0} (pbs : Str) (api : PbsApi) where
  note_tasks-nodes : (c : Cache F) → (note_tasks pbs api c).nodes ≡ c.nodes
  unfolding note_tasks update_tasks
  note_tasks-nodes c = from api.tasks refl
    where
      from : (t : ApiReply (List RawTask)) → api.tasks ≡ t → (note_tasks pbs api c).nodes ≡ c.nodes
      from no_answer e = rw (e, note_tasks) refl
      from (status_error code) e = rw (e, note_tasks) refl
      from (got ts) e = rw (e, note_tasks) refl

  -- The nodes in a result of the poll, and others where there is none.
  nodes_in :
      Dict Str (Dict Str ℕ) → Option (Cache F × List (Pbs.StoreCall F)) → Dict Str (Dict Str ℕ)
  nodes_in old none = old
  nodes_in old (some (c, calls)) = c.nodes

  collect-nodes :
      (configured : List Str) (now : ℕ) (c c' : Cache F) (calls : List (Pbs.StoreCall F))
      → Pbs.collect pbs api configured now c ≡ some (c', calls)
      → c'.nodes ≡ c.nodes
  unfolding nodes_in Pbs.collect set_last_poll update_backups update_datastores
  collect-nodes configured now c c' calls h =
      elim (Option-cases (collect_datastores {F = F} pbs api configured)) [
        | inl e ↦ let none_is = rw (e, Pbs.collect) at h in absurd cc
        | inr (stores, e) ↦
            sym (ap (nodes_in c.nodes) (rw (e, Pbs.collect) at h)) ∙ note_tasks-nodes _
      ]

module _ (fl : Float) (a b : ℕ) (h₀ : Heap fl.Carrier) where
  open fl use {Carrier}

  publish-IsApart :
      (inst cluster : Str) (due : Bool) (now : ℕ) (g : Gathered Carrier) (c : Cache Carrier)
      (h : Heap Carrier)
      → IsApart a b h₀ (c, h)
      → IsApart a b h₀ (publish fl inst cluster due now g (c, h))
  unfolding publish apply_op update_nodes update_guests update_disks set_last_poll
  publish-IsApart inst cluster true now g c h inv =
      let done = apply_op-IsApart a b h₀ (polled inst g.node_map) c h inv in
      same-IsApart a b h₀ (apply_op (polled inst g.node_map) (c, h)).0
        (publish fl inst cluster true now g (c, h)).0 (apply_op (polled inst g.node_map) (c, h)).1
        refl done
  publish-IsApart inst cluster false now g c h inv =
      let done = apply_op-IsApart a b h₀ (polled inst g.node_map) c h inv in
      same-IsApart a b h₀ (apply_op (polled inst g.node_map) (c, h)).0
        (publish fl inst cluster false now g (c, h)).0 (apply_op (polled inst g.node_map) (c, h)).1
        refl done

  temperature-IsApart :
      (inst node : Str) (output : Option (Sensors Carrier)) (c : Cache Carrier) (h : Heap Carrier)
      → IsApart a b h₀ (c, h)
      → IsApart a b h₀ (c, Temperature.collect fl inst node output c h)
  unfolding Temperature.collect apply_op
  temperature-IsApart inst node none c h inv = inv
  temperature-IsApart inst node (some sensors) c h inv =
      elim (Option-cases (parse_sensors fl sensors)) [
        | inl e ↦ rw (e, Temperature.collect) inv
        | inr (t, e) ↦
            rw (e, Temperature.collect) (apply_op-IsApart a b h₀ (measured inst node t) c h inv)
      ]

  Step-IsApart :
      {w x : World Carrier}
      → Step fl w x
      → IsApart a b h₀ (w.cache, w.heap)
      → IsApart a b h₀ (x.cache, x.heap)
  unfolding finish alerted apply_op
  Step-IsApart (pve_polled {w} cfg api now p q es e i) inv =
      publish-IsApart cfg.name q.cluster_id (disks_due q.last_disk_poll now cfg.disk_poll_interval)
        now (gather fl es) w.cache w.heap inv
  Step-IsApart (pbs_polled {w} pbs api configured now c calls e) inv =
      same-IsApart a b h₀ w.cache c w.heap
        (sym (collect-nodes pbs api configured now w.cache c calls e)) inv
  Step-IsApart (temperature_read {w} inst node output) inv =
      temperature-IsApart inst node output w.cache w.heap inv
  Step-IsApart (requested {w}) inv = apply_op-IsApart a b h₀ copied w.cache w.heap inv
  Step-IsApart (evaluated {w} cfg now since) inv = apply_op-IsApart a b h₀ copied w.cache w.heap inv

  pub Steps-IsApart :
      {w x : World Carrier}
      → Steps fl w x
      → IsApart a b h₀ (w.cache, w.heap)
      → IsApart a b h₀ (x.cache, x.heap)
  Steps-IsApart here inv = inv
  Steps-IsApart (then_step s t) inv = Step-IsApart t (Steps-IsApart s inv)

module _ (fl : Float) where
  open fl use {Carrier}

  -- In every state that the program reaches, the cache's addresses are allocated.
  pub reached-Below :
      {w : World Carrier} → Steps fl start w → AllInstanceRefs (Below w.heap.next) w.cache.nodes
  unfolding glint.Cache.new
  reached-Below {w} s =
      let zero_range =
        Steps-IsApart fl 0 0 start.heap s
          (record { allocated = omega arith; apart = tt; frame = λ p l. refl }) in
      AllInstanceRefs-map (λ p l. l.0) w.cache.nodes zero_range.apart

  -- In any run of the program from its start: the snapshot of the cache that a request or a round of the alerter takes
  -- shows, after any further polls, temperature readings, requests and rounds, what the cache held when the snapshot was
  -- taken.
  pub snapshot_kept :
      {w x : World Carrier}
      → Steps fl start w
      → Steps fl (record w { heap = (snapshot w.cache w.heap).1 }) x
      → view x.heap (snapshot w.cache w.heap).0 ≡ view w.heap w.cache
  snapshot_kept {w} {x} s t =
      let below = reached-Below s in
      let h' = (snapshot w.cache w.heap).1 in
      view-snapshot w.cache w.heap below (x.cache, x.heap)
        (Steps-IsApart fl w.heap.next h'.next h' t (snapshot-IsApart w.cache w.heap below))
