-- ===== src/Store/Query.antt =====
-- internal/store/store.go: the sparkline queries.
use glint.Common.{Bool, ◌&&◌, Option, none, some, List, [], ◌∷◌, if◌then◌else◌}
use glint.Common.Int.{ℤ, pos, leb_ℤ, eqb_ℤ}
use glint.Common.Text.{Str, str, str_eq}
use glint.Common.Result.{Result, ok, err}
use glint.Common.Float.{Float}
use glint.Common.Dict.{str_key, int_key, pair_key}
use glint.Model.{GuestSnapshot, NodeSnapshot, SparklinePoint}
use glint.Store.Rows.{Database}
use glint.Store.{Store, StoreError, query_failed, scan_failed, unknown_metric}

module _ (fl : Float) (sql_div : fl.Carrier → fl.Carrier → Option fl.Carrier) where
  open fl use {Carrier, of_int, mul}

  -- The column that is selected; `sql_div` is the division of reals in SQL, `none` its NULL.
  unfoldable pub memory_column : NodeSnapshot Carrier → Option Carrier
  memory_column r = elim (sql_div (of_int r.mem_used) (of_int r.mem_total)) [
    | none ↦ none
    | some q ↦ some (mul q (of_int (pos 100)))
  ]

  unfoldable pub column : Str → Option (NodeSnapshot Carrier → Option Carrier)
  column metric =
      if str_eq metric (str "cpu")
      then some (λ r. some r.cpu_pct)
      else if str_eq metric (str "memory")
      then some memory_column
      else none

  -- The loop over the rows; a NULL cannot be scanned into a float64.
  unfoldable pub scan_points :
      {R : Type 0}
      → (R → ℤ)
      → (R → Option Carrier)
      → List R
      → Result StoreError (List (SparklinePoint Carrier))
  scan_points ts value [] = ok []
  scan_points ts value (r ∷ rows) =
      let rest = scan_points ts value rows in
      (elim (value r) [
        | none ↦ err scan_failed
        | some v ↦ elim rest [
          | err e ↦ err e
          | ok points ↦ ok (record { timestamp = ts r; value = v } ∷ points)
        ]
      ])

  module _ (d : Database Carrier) where
    -- WHERE instance = ? AND node = ? AND ts >= ?.
    unfoldable pub wanted_node : Str → Str → ℤ → NodeSnapshot Carrier → Bool
    wanted_node inst node since r =
        str_eq r.instance_name inst && str_eq r.node node && leb_ℤ since r.timestamp

    unfoldable pub query_node_sparkline :
        Bool → Str → Str → Str → ℤ → Store d → Result StoreError (List (SparklinePoint Carrier))
    unfolding scan_points wanted_node
    query_node_sparkline carried inst node metric since s = elim (column metric) [
      | none ↦ err (unknown_metric metric)
      | some value ↦
          if carried
          then scan_points (λ r. r.timestamp) value
              (d.node_snapshots.select (wanted_node inst node since) (λ r. r.timestamp)
                s.node_snapshots)
          else err query_failed
    ]

    unfoldable pub wanted_guest : Str → ℤ → ℤ → GuestSnapshot Carrier → Bool
    wanted_guest inst vmid since r =
        str_eq r.instance_name inst && eqb_ℤ r.vmid vmid && leb_ℤ since r.timestamp

    unfoldable pub query_guest_sparkline :
        Bool → Str → ℤ → ℤ → Store d → Result StoreError (List (SparklinePoint Carrier))
    unfolding scan_points wanted_guest
    query_guest_sparkline carried inst vmid since s =
        if carried
        then scan_points (λ r. r.timestamp) (λ r. some r.cpu_pct)
            (d.guest_snapshots.select (wanted_guest inst vmid since) (λ r. r.timestamp)
              s.guest_snapshots)
        else err query_failed
