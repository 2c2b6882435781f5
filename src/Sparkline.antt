-- ===== src/Sparkline.antt =====
-- internal/api/handlers.go: the sparkline handlers and handleHealthz. A response is what the handler gives to
-- writeJSON or to the SVG component, or its error.
pub mod Points
pub mod Stored
pub mod Journey
mod Tests
use glint.Common.{
  ℕ, ◌*◌, ◌/◌, ◌-◌, Bool, true, false, ◌&&◌, Option, none, some, List, [], ◌∷◌, ◌++◌, map,
  if◌then◌else◌,
}
use glint.Common.Int.{ℤ, pos, ltb_ℤ, leb_ℤ, ◌-ℤ◌}
use glint.Common.Text.{Str, str, is_empty, parse_int, show_int}
use glint.Common.Result.{Result, ok, err}
use glint.Common.Float.{Float}
use glint.Common.Dict.{Dict}
use glint.Common.Time.{second}
use glint.Model.{SparklinePoint}
use glint.Cache.{Cache}
use glint.Store.Rows.{Database}
use glint.Store.{Store}
use glint.Store.Query.{query_node_sparkline, query_guest_sparkline}

pub data Response (A : Type 0) : Type 0 where
  written : A → Response A
  server_error : Response A
  bad_request : Response A

-- The hours of the query parameter, which is empty where there is none.
unfoldable pub sparkline_hours : Str → ℤ
sparkline_hours h = if is_empty h then pos 24 else (elim (parse_int 10 h) [
  | none ↦ pos 24
  | some v ↦ if ltb_ℤ (pos 0) v && leb_ℤ v (pos 168) then v else pos 24
])

unfoldable pub metric_of : Str → Str
metric_of metric = if is_empty metric then str "cpu" else metric

-- time.Now().Add(-hours).Unix().
unfoldable pub since : ℕ → ℤ → ℤ
since now (pos hours) = pos (now / second) -ℤ pos (hours * 3600)
since now hours = pos (now / second)

-- A result of the store, or the answer 500.
unfoldable pub respond : {E A : Type 0} → Result E A → Response A
respond (ok a) = written a
respond (err e) = server_error

module _ (fl : Float) (sql_div : fl.Carrier → fl.Carrier → Option fl.Carrier)
    (d : Database fl.Carrier) where
  open fl use {Carrier}

  unfoldable pub handle_node_sparkline :
      Bool → ℕ → (inst node hours metric : Str) → Store d → Response (List (SparklinePoint Carrier))
  unfolding sparkline_hours metric_of since respond
  handle_node_sparkline carried now inst node hours metric s = respond (
      query_node_sparkline fl sql_div d carried inst node (metric_of metric)
        (since now (sparkline_hours hours)) s)

  unfoldable pub handle_guest_sparkline :
      Bool → ℕ → (inst vmid : Str) → Store d → Response (List (SparklinePoint Carrier))
  unfolding since respond
  handle_guest_sparkline carried now inst vmid s = elim (parse_int 10 vmid) [
    | none ↦ bad_request
    | some v ↦ respond (query_guest_sparkline fl sql_div d carried inst v (since now (pos 24)) s)
  ]

  -- The same points, with the label of the SVG.
  unfoldable pub handle_node_sparkline_svg :
      Bool
      → ℕ
      → (inst node hours metric : Str) → Store d
      → Response (List (SparklinePoint Carrier) × Str)
  unfolding sparkline_hours metric_of since
  handle_node_sparkline_svg carried now inst node hours metric s =
      let h = sparkline_hours hours in
      (elim (query_node_sparkline fl sql_div d carried inst node (metric_of metric) (since now h)
        s) [
          | err e ↦ server_error
          | ok points ↦ written (points, metric_of metric ++ b' ' ∷ show_int h ++ str "h")
        ])

  unfoldable pub handle_guest_sparkline_svg :
      Bool → ℕ → (inst vmid : Str) → Store d → Response (List (SparklinePoint Carrier) × Str)
  unfolding since
  handle_guest_sparkline_svg carried now inst vmid s = elim (parse_int 10 vmid) [
    | none ↦ bad_request
    | some v ↦ elim (query_guest_sparkline fl sql_div d carried inst v (since now (pos 24)) s) [
      | err e ↦ server_error
      | ok points ↦ written (points, str "cpu 24h")
    ]
  ]

-- `status` and `collectors` of the health check; `ago` is int(time.Since(v).Seconds()).
unfoldable pub handle_healthz : {F : Type 0} → (ℕ → ℤ) → Cache F → Str × Dict Str Str
handle_healthz ago c = (
  (elim c.last_poll [ [] ↦ str "no_data" | p ∷ rest ↦ str "ok" ]),
  map (λ e. (e.0, show_int (ago e.1) ++ str "s ago")) c.last_poll,
)
