-- ===== src/Program/Online.antt =====
-- The nodes that the cache shows in a run of the program (internal/collector/pve.go, internal/cache), and the
-- widget's counts of them (internal/api/handlers.go).
use glint.Common.{
  ℕ, ◌≡◌, refl, ◌∙◌, inl, inr, none, some, List, [], ◌∷◌, arith, All, All-append, Option-cases,
  fold,
}
use glint.Common.Text.{Str, str, str_eq_iff}
use glint.Common.Float.{Float}
use glint.Common.Dict.{All-insert, All-lookup, Dict, lookup, nat_key, str_key, values}
use glint.Model.{Node}
use glint.Cache.{
  Cache, Heap, alloc, copy_instances, copy_nodes, snapshot, update_node_temperature, view,
  view_instances, view_nodes, write_temperature,
}
use glint.Cache.Isolation.{make_nodes}
use glint.Pve.{finish, publish, gather, workers, disks_due, PveSettings, PveCollector}
use glint.Pve.Parse.{PveApi, parse_node_status}
use glint.Pve.Workers.{Event, Interleaved, nothing}
use glint.Pve.Sections.{All-Interleaved, Brings, node_map-All}
use glint.Pve.Schedule.{map-work, polled_node, work-All}
use glint.Temperature
use glint.Temperature.{Sensors, parse_sensors}
use glint.Widget.{NodeLoop, count_node, handle_widget, nested, no_nodes}
use glint.Program.{
  Step, Steps, World, alerted, evaluated, here, pbs_polled, pve_polled, requested, start,
  temperature_read, then_step,
}

module _ {F : Type 0} where
  abbrev IsOnline : Node F → Type 0
  IsOnline n = n.status ≡ str "online"

  -- Every node on the heap is online.
  abbrev AllOnline : Heap F → Type 0
  AllOnline h = All (λ e. IsOnline e.1) h.cells

  copy_nodes-AllOnline : (m : Dict Str ℕ) (h : Heap F) → AllOnline h → AllOnline (copy_nodes m h).1
  unfolding copy_nodes alloc
  copy_nodes-AllOnline [] h on = on
  copy_nodes-AllOnline ((k, p) ∷ m) h on = elim (Option-cases (lookup p h.cells)) [
    | inl e ↦ rw (e, copy_nodes) (copy_nodes-AllOnline m h on)
    | inr (n, e) ↦
        rw (e, copy_nodes)
          (copy_nodes-AllOnline m (alloc n h).1 (All-lookup IsOnline p h.cells n on e, on))
  ]

  copy_instances-AllOnline :
      (m : Dict Str (Dict Str ℕ)) (h : Heap F) → AllOnline h → AllOnline (copy_instances m h).1
  unfolding copy_instances
  copy_instances-AllOnline [] h on = on
  copy_instances-AllOnline ((i, m) ∷ rest) h on =
      copy_instances-AllOnline rest (copy_nodes m h).1 (copy_nodes-AllOnline m h on)

  make_nodes-AllOnline :
      (ns : Dict Str (Node F)) (h : Heap F)
      → All (λ e. IsOnline e.1) ns
      → AllOnline h
      → AllOnline (make_nodes ns h).1
  unfolding make_nodes alloc
  make_nodes-AllOnline [] h k on = on
  make_nodes-AllOnline ((k, n) ∷ ns) h a on = make_nodes-AllOnline ns (alloc n h).1 a.1 (a.0, on)

  write_temperature-AllOnline :
      (p : ℕ) (t : F) (h : Heap F) → AllOnline h → AllOnline (write_temperature p t h)
  unfolding write_temperature
  write_temperature-AllOnline p t h on = elim (Option-cases (lookup p h.cells)) [
    | inl e ↦ rw (e, write_temperature) on
    | inr (n, e) ↦
        rw (e, write_temperature)
          (All-insert IsOnline p (record n { temperature = some t }) h.cells
            (All-lookup IsOnline p h.cells n on e) on)
  ]

  update_node_temperature-AllOnline :
      (i n : Str) (t : F) (c : Cache F) (h : Heap F)
      → AllOnline h
      → AllOnline (update_node_temperature i n t c h)
  unfolding update_node_temperature
  update_node_temperature-AllOnline i n t c h on = elim (Option-cases (lookup i c.nodes)) [
    | inl e ↦ rw (e, update_node_temperature) on
    | inr (m, e) ↦ elim (Option-cases (lookup n m)) [
      | inl e' ↦ rw (e, e', update_node_temperature) on
      | inr (p, e') ↦ rw (e, e', update_node_temperature) (write_temperature-AllOnline p t h on)
    ]
  ]

  view_nodes-AllOnline :
      (h : Heap F) (m : Dict Str ℕ) → AllOnline h → All IsOnline (values (view_nodes h m))
  unfolding view_nodes values
  view_nodes-AllOnline h [] on = tt
  view_nodes-AllOnline h ((k, p) ∷ m) on = elim (Option-cases (lookup p h.cells)) [
    | inl e ↦ rw (e, view_nodes) (view_nodes-AllOnline h m on)
    | inr (n, e) ↦
        rw (e, view_nodes) (All-lookup IsOnline p h.cells n on e, view_nodes-AllOnline h m on)
  ]

  view_instances-AllOnline :
      (h : Heap F) (m : Dict Str (Dict Str ℕ))
      → AllOnline h
      → All IsOnline (nested (view_instances h m))
  unfolding view_instances
  view_instances-AllOnline h [] on = tt
  view_instances-AllOnline h ((i, m) ∷ rest) on =
      All-append IsOnline (values (view_nodes h m)) (nested (view_instances h rest))
        (view_nodes-AllOnline h m on) (view_instances-AllOnline h rest on)

module _ (fl : Float) where
  open fl use {Carrier}

  -- Of online nodes none is counted as offline.
  count_node-online :
      (l : List (Node Carrier)) (s : NodeLoop Carrier)
      → All IsOnline l
      → (fold (count_node fl) l s).stats.offline ≡ s.stats.offline
  unfolding fold count_node
  count_node-online [] s h = refl
  count_node-online (n ∷ l) s h =
      count_node-online l (count_node fl n s) h.1
      ∙ (rw ((str_eq_iff n.status (str "online")).1 h.0, count_node) refl)

  -- The nodes that a poll gathers.
  gather-AllOnline :
      (cfg : PveSettings) (api : PveApi Carrier) (now : ℕ) (p : PveCollector)
      (es : List (Event Carrier))
      → Interleaved (workers fl cfg now api p) es
      → All (λ e. IsOnline e.1) (gather fl es).node_map
  unfolding workers gather polled_node parse_node_status
  gather-AllOnline cfg api now p es i =
      let due = disks_due p.last_disk_poll now cfg.disk_poll_interval in
      node_map-All IsOnline es nothing
        (All-Interleaved (Brings IsOnline) i (
          map-work fl api cfg.name p.cluster_id due (Brings IsOnline) p.nodes (λ name.
            work-All fl api cfg.name p.cluster_id due (Brings IsOnline) name
              (λ n e. ground (arith, e)) tt (λ ds. tt))))
        tt

  Step-AllOnline : {w x : World Carrier} → Step fl w x → AllOnline w.heap → AllOnline x.heap
  unfolding finish publish alerted snapshot Temperature.collect
  Step-AllOnline (pve_polled {w} cfg api now p q es e i) on =
      make_nodes-AllOnline (gather fl es).node_map w.heap (gather-AllOnline cfg api now q es i) on
  Step-AllOnline (pbs_polled pbs api configured now c calls e) on = on
  Step-AllOnline (temperature_read {w} inst node none) on = on
  Step-AllOnline (temperature_read {w} inst node (some sensors)) on =
      elim (Option-cases (parse_sensors fl sensors)) [
        | inl e ↦ rw (e, Temperature.collect) on
        | inr (t, e) ↦
            rw (e, Temperature.collect)
              (update_node_temperature-AllOnline inst node t w.cache w.heap on)
      ]
  Step-AllOnline (requested {w}) on = copy_instances-AllOnline w.cache.nodes w.heap on
  Step-AllOnline (evaluated {w} cfg now since) on = copy_instances-AllOnline w.cache.nodes w.heap on

  Steps-AllOnline : {w x : World Carrier} → Steps fl w x → AllOnline w.heap → AllOnline x.heap
  Steps-AllOnline here on = on
  Steps-AllOnline (then_step s t) on = Step-AllOnline t (Steps-AllOnline s on)

  -- In every state that the program reaches from its start, whatever the APIs answer and in whatever order polls,
  -- temperature readings, requests and the alerter's rounds come, the widget counts no node as offline.
  pub handle_widget-offline :
      {w : World Carrier}
      → Steps fl start w
      → (handle_widget fl (view w.heap w.cache)).nodes.offline ≡ 0
  unfolding handle_widget view
  handle_widget-offline {w} s =
      count_node-online (nested (view_instances w.heap w.cache.nodes)) (no_nodes fl)
        (view_instances-AllOnline w.heap w.cache.nodes (Steps-AllOnline s tt))
