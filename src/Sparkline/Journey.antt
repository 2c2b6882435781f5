-- ===== src/Sparkline/Journey.antt =====
-- From a poll (internal/collector/pve.go) over the store (internal/store) to the node sparkline handler
-- (internal/api/handlers.go).
use mathlib.Core.List.{Memᴰ}
use glint.Common.{ℕ, ◌/◌, ◌≡◌, refl, ap, ◌∙◌, Bool, true, Option, some, List, arith, any, fold, map}
use glint.Common.Int.{pos, leb_ℤ}
use glint.Common.Text.{Str, str, str_eq}
use glint.Common.Float.{Float}
use glint.Common.Dict.{pair_key, str_key, int_key}
use glint.Common.Time.{second}
use glint.Model.{Node, SmartAttribute, SparklinePoint}
use glint.Pve.{PveCollector, PveSettings, finish, node_snapshot, workers}
use glint.Pve.Parse.{PveApi}
use glint.Pve.Workers.{Event, Interleaved}
use glint.Pve.Schedule.{polled_node}
use glint.Cache.{Cache, Heap}
use glint.Store.Query.{column}
use glint.Store.Pruner.{prune, RetentionConfig}
use glint.Store.Rows.{Database}
use glint.Store.{Store}
use glint.Store.Spec.{change, pruned, recent}
use glint.Store.Refinement.{change-Holds, perform, run, run-Holds}
use glint.Sparkline.{handle_node_sparkline, metric_of, since, sparkline_hours, written}
use glint.Sparkline.Points.{handle_node_sparkline-points}
use glint.Sparkline.Stored.{op_of, stored-node, ops, contents, polled_node-name}

module _ (fl : Float) (api : PveApi fl.Carrier) (cfg : PveSettings) (now : ℕ)
    (p : PveCollector) where
  open fl use {Carrier, mul, of_int}

  module _ (d : Database Carrier) (marshal : List SmartAttribute → Option Str) where
    -- Where a poll of an instance at `now`, in whatever order its workers came to their locked sections, found the
    -- node `k` online and got its status, and the database carries out the calls that the poll makes of the store:
    -- a prune at a later time under retention periods that do not yet drop the poll's time, whether it is carried out or not,
    -- and then a request for the node's CPU sparkline over hours that reach back to the poll, lead to an answer with
    -- the point of the poll's time, and its value is the node's CPU usage in percent.
    pub handle_node_sparkline-finish :
        (sql_div : Carrier → Carrier → Option Carrier)
        → (es : List (Event Carrier)) (st : Cache Carrier × Heap Carrier) (s : Store d) (k : Str)
          (n : Node Carrier)
        → (carried : Str → Bool) (retention : RetentionConfig) (later : ℕ) (hours metric : Str)
        → Interleaved (workers fl cfg now api p) es
        → any (λ name. str_eq name k) p.nodes ≡ true
        → polled_node fl api cfg.name p.cluster_id k ≡ some n
        → metric_of metric ≡ str "cpu"
        → recent later retention.node_snapshots (pos (now / second)) ≡ true
        → leb_ℤ (since later (sparkline_hours hours)) (pos (now / second)) ≡ true
        → (points : List (SparklinePoint Carrier)) × (handle_node_sparkline fl sql_div d true later
              cfg.name k hours metric
              (prune d carried retention later
                (run d marshal (map (op_of (pos (now / second))) (finish fl cfg now es p st).2) s))
            ≡ written points)
          × Memᴰ
              (record { timestamp = pos (now / second); value = mul n.cpu (of_int (pos 100)) })
              points
    unfolding finish column node_snapshot change perform str str_eq
    handle_node_sparkline-finish sql_div es st s k n carried retention later hours metric i on e cpu
          young asked =
        let ts = pos (now / second) in
        let stored = run d marshal (ops fl api cfg now p d marshal es) s in
        let row = node_snapshot fl ts cfg.name n in
        let held =
          run-Holds d marshal (ops fl api cfg now p d marshal es) s
            (contents fl api cfg now p d marshal s)
            (
              (λ j. refl),
              (λ j. refl),
              (λ j. refl),
              (λ j. refl),
              (λ j. refl),
              (λ j. refl),
              (λ j. refl),
              (λ j. refl),
              refl,
            ) in
        let kept_row =
          (change-Holds d marshal (pruned carried retention later) stored
              (fold (change marshal) (ops fl api cfg now p d marshal es)
                (contents fl api cfg now p d marshal s))
              held).3
            (ts, (cfg.name, k)) in
        let found : d.node_snapshots.find (ts, (cfg.name, k))
              (prune d carried retention later stored).node_snapshots
            ≡ some row =
          kept_row
          ∙ ground (
            arith,
            stored-node fl api cfg now p d marshal es k n (contents fl api cfg now p d marshal s) i
                on e,
            young,
          ) in
        let name = polled_node-name fl api cfg now p k n e in
        let known : column fl sql_div (metric_of metric) ≡ some (λ r. some r.cpu_pct) =
          rw cpu refl in
        let answer =
          handle_node_sparkline-points fl sql_div d (prune d carried retention later stored) later
            cfg.name k hours metric (λ r. some r.cpu_pct) known (λ r w. (r.cpu_pct, refl)) in
        (
          answer.0,
          answer.1,
          (answer.3 (record { timestamp = ts; value = row.cpu_pct })).1 (
            row,
            (
              ap
                    (λ z.
                      d.node_snapshots.find (ts, (cfg.name, z))
                        (prune d carried retention later stored).node_snapshots)
                    name
                  ∙ found,
              refl,
              name,
              asked,
            ),
            (refl, refl),
          ),
        )
