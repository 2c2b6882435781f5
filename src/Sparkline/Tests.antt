-- ===== src/Sparkline/Tests.antt =====
-- The node sparkline of a poll, and of a store with two rows.
use mathlib.Core.List.{Memᴰ}
use glint.Common.{ℕ, ◌*◌, ◌/◌, ◌≡◌, refl, ◌↔◌, true, some, [], ◌∷◌, List, map, arith}
use glint.Common.Int.{ℤ, pos}
use glint.Common.Text.{Str, str}
use glint.Common.Whole.{whole}
use glint.Common.Time.{hour}
use glint.Model.{NodeSnapshot, SparklinePoint}
use glint.Pve.{finish}
use glint.Pve.Tests.{api, before, cfg, events, held, order, ready, raw}
use glint.Pve.Parse.{parse_node_status}
use glint.Store.Query.{column}
use glint.Store.Pruner.{prune, default_retention}
use glint.Store.Sql.{Ascending}
use glint.Store.Refinement.{run}
use glint.Store.Tests.{filled, node_row, tables}
use glint.Sparkline.{handle_node_sparkline, metric_of, since, sparkline_hours, written}
use glint.Sparkline.Points.{IsPointOf, IsWanted, handle_node_sparkline-points}
use glint.Sparkline.Journey.{handle_node_sparkline-finish}
use glint.Sparkline.Stored.{op_of}

handle_node_sparkline-points_example :
    (points : List (SparklinePoint ℤ)) × (handle_node_sparkline whole
        (λ a b. some b)
        tables
        true
        (2 * hour)
        (str "pve")
        (str "a")
        (str "1")
        []
        (filled (node_row 3900 ∷ node_row 10 ∷ []))
      ≡ written points)
    × Ascending (λ p. p.timestamp) points
    × ((p : SparklinePoint ℤ)
        → Memᴰ p points ↔ (
            (r : NodeSnapshot ℤ) × IsWanted whole
              (λ a b. some b)
              tables
              (filled (node_row 3900 ∷ node_row 10 ∷ []))
              (str "pve")
              (str "a")
              (since (2 * hour) (sparkline_hours (str "1")))
              r
            × IsPointOf whole (λ a b. some b) (λ x. x.timestamp) (λ x. some x.cpu_pct) r p))
unfolding column metric_of str glint.Common.Text.str_eq
handle_node_sparkline-points_example =
    handle_node_sparkline-points whole (λ a b. some b) tables
      (filled (node_row 3900 ∷ node_row 10 ∷ [])) (2 * hour) (str "pve") (str "a") (str "1") []
      (λ r. some r.cpu_pct) refl (λ r w. (r.cpu_pct, refl))

handle_node_sparkline-finish_example :
    (points : List (SparklinePoint ℤ)) × (handle_node_sparkline whole
        (λ a b. some b)
        tables
        true
        (2 * hour)
        (str "pve")
        (str "a")
        (str "3")
        []
        (prune tables
          (λ t. true)
          default_retention
          (2 * hour)
          (run tables
            (λ l. some [])
            (map (op_of (pos 0)) (finish whole cfg 3 events ready (before, held)).2)
            (filled [])))
      ≡ written points)
    × Memᴰ (record { timestamp = pos 0; value = pos 0 }) points
unfolding metric_of str glint.Common.Text.str_eq default_retention glint.Pve.Schedule.polled_node
    glint.Common.Int.◌-ℤ◌ since sparkline_hours glint.Common.Text.parse_int parse_node_status
handle_node_sparkline-finish_example =
    handle_node_sparkline-finish whole api cfg 3 ready tables (λ l. some []) (λ a b. some b) events
      (before, held) (filled []) (str "a")
      (parse_node_status whole api.parse_float (str "pve") (str "a") raw) (λ t. true)
      default_retention (2 * hour) (str "3") [] order refl refl refl refl refl
