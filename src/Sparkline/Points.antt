-- ===== src/Sparkline/Points.antt =====
-- Which points the node sparkline handler of internal/api/handlers.go answers with.
use mathlib.Core.List.{Memᴰ}
use mathlib.Core.List.Memᴰ
use mathlib.Core.List.Memᴰ.{head, tail}
use glint.Common.{
  ℕ, ◌≡◌, refl, sym, ap, ◌∙◌, ◌↔◌, inl, inr, true, Option, some, List, [], ◌∷◌, arith,
}
use glint.Common.Int.{ℤ, leb_ℤ}
use glint.Common.Text.{Str, str_eq_iff}
use glint.Common.Result.{ok}
use glint.Common.Float.{Float}
use glint.Model.{NodeSnapshot, SparklinePoint}
use glint.Store.Sql.{Ascending}
use glint.Store.Rows.{Database, node_key}
use glint.Store.{Store}
use glint.Store.Query.{column, query_node_sparkline, scan_points, wanted_node}
use glint.Sparkline.{written, handle_node_sparkline, metric_of, respond, since, sparkline_hours}

module _ (fl : Float) (sql_div : fl.Carrier → fl.Carrier → Option fl.Carrier) where
  open fl use {Carrier}

  -- The point that a row gives.
  abbrev pub IsPointOf :
      {R : Type 0} → (R → ℤ) → (R → Option Carrier) → R → SparklinePoint Carrier → Type 0
  IsPointOf ts value r p = (p.timestamp ≡ ts r) × (value r ≡ some p.value)

  point_eta :
      (p : SparklinePoint Carrier) (t : ℤ) (v : Carrier)
      → p.timestamp ≡ t
      → p.value ≡ v
      → p ≡ record { timestamp = t; value = v }
  point_eta p t v e h =
      ap (λ x. record p { timestamp = x }) e ∙ ap (λ x. record { timestamp = t; value = x }) h

  module _ {R : Type 0} (ts : R → ℤ) (value : R → Option Carrier) where
    -- Every row has a value.
    abbrev HasValues : List R → Type 0
    HasValues rows = (r : R) → Memᴰ r rows → (v : Carrier) × (value r ≡ some v)

    abbrev IsScan : List R → List (SparklinePoint Carrier) → Type 0
    IsScan rows points =
        (p : SparklinePoint Carrier)
        → Memᴰ p points ↔ ((r : R) × Memᴰ r rows × IsPointOf ts value r p)

    cons-IsScan :
        (x : R) (v : Carrier) (rows : List R) (points : List (SparklinePoint Carrier))
        → value x ≡ some v
        → IsScan rows points
        → IsScan (x ∷ rows) (record { timestamp = ts x; value = v } ∷ points)
    cons-IsScan x v rows points e h p = (into, λ z. back z.0 z.1 z.2)
      where
        into :
            Memᴰ p (record { timestamp = ts x; value = v } ∷ points)
            → (r : R) × Memᴰ r (x ∷ rows) × IsPointOf ts value r p
        into m = elim (Memᴰ.cases_cons m) [
          | inl q ↦ (x, head refl, (ap (λ z. z.timestamp) q, e ∙ sym (ap (λ z. some z.value) q)))
          | inr m' ↦ let z = (h p).0 m' in (z.0, tail z.1, z.2)
        ]

        back :
            (r : R)
            → Memᴰ r (x ∷ rows)
            → IsPointOf ts value r p
            → Memᴰ p (record { timestamp = ts x; value = v } ∷ points)
        back r (head q) (a, b) = head (point_eta p (ts x) v (a ∙ ap ts q) (ground (arith, b, q, e)))
        back r (tail m) w = tail ((h p).1 (r, m, w))

    -- The points of the rows.
    points_of : (rows : List R) → HasValues rows → List (SparklinePoint Carrier)
    points_of [] h = []
    points_of (x ∷ rows) h =
        record { timestamp = ts x; value = (h x (head refl)).0 }
        ∷ points_of rows (λ r m. h r (tail m))

    scan_points-ok :
        (rows : List R) (h : HasValues rows)
        → scan_points fl sql_div ts value rows ≡ ok (points_of rows h)
    unfolding scan_points points_of
    scan_points-ok [] h = refl
    scan_points-ok (x ∷ rows) h =
        rw ((h x (head refl)).1, scan_points-ok rows (λ r m. h r (tail m)), scan_points) refl

    points_of-Ascending :
        (rows : List R) (h : HasValues rows)
        → Ascending ts rows
        → Ascending (λ p. p.timestamp) (points_of rows h)
    unfolding points_of
    points_of-Ascending [] h a = tt
    points_of-Ascending (x ∷ []) h a = tt
    points_of-Ascending (x ∷ y ∷ rows) h a =
        (a.0, points_of-Ascending (y ∷ rows) (λ r m. h r (tail m)) a.1)

    points_of-IsScan : (rows : List R) (h : HasValues rows) → IsScan rows (points_of rows h)
    unfolding points_of
    points_of-IsScan [] h = λ p. (λ m. elim m [ ], λ z. elim z.1 [ ])
    points_of-IsScan (x ∷ rows) h =
        let (v, e) = h x (head refl) in
        let below : HasValues rows = λ r m. h r (tail m) in
        cons-IsScan x v rows (points_of rows below) e (points_of-IsScan rows below)

  module _ (d : Database Carrier) (s : Store d) where
    -- The rows of the node since a time, by the store's contents.
    abbrev pub IsWanted : Str → Str → ℤ → NodeSnapshot Carrier → Type 0
    IsWanted inst node from r =
        (d.node_snapshots.find (node_key r) s.node_snapshots ≡ some r)
        × (r.instance_name ≡ inst)
        × (r.node ≡ node)
        × (leb_ℤ from r.timestamp ≡ true)

    IsWanted-iff :
        (inst node : Str) (from : ℤ) (r : NodeSnapshot Carrier)
        → Memᴰ r (
            d.node_snapshots.select
              (wanted_node fl sql_div d inst node from)
              (λ x. x.timestamp)
              s.node_snapshots)
          ↔ IsWanted inst node from r
    unfolding wanted_node
    IsWanted-iff inst node from r =
        let law =
          d.node_snapshots.select_iff (wanted_node fl sql_div d inst node from) (λ x. x.timestamp)
            s.node_snapshots r in
        let same = str_eq_iff r.instance_name inst in
        let on = str_eq_iff r.node node in
        (
          λ m.
              let z = law.0 m in
              (z.0, ground (arith, z.1, same), ground (arith, z.1, on), ground (arith, z.1)),
          λ w. law.1 (w.0, ground (arith, w.1, w.2, w.3, same, on)),
        )

    -- Where the database answers the query, the metric is known, and each of the node's rows since the time that is
    -- asked for has a value (the memory column has none where a division by the total is NULL): the handler writes
    -- points, in the order of their times, and these are exactly the points of the stored rows of that instance and
    -- node whose time is at most the hours of the request before now, in whole seconds.
    pub handle_node_sparkline-points :
        (now : ℕ) (inst node hours metric : Str) (value : NodeSnapshot Carrier → Option Carrier)
        → column fl sql_div (metric_of metric) ≡ some value
        → ((r : NodeSnapshot Carrier)
            → IsWanted inst node (since now (sparkline_hours hours)) r
            → (v : Carrier) × (value r ≡ some v))
        → (points : List (SparklinePoint Carrier)) × (handle_node_sparkline fl sql_div d true now
              inst node hours metric s
            ≡ written points)
          × Ascending (λ p. p.timestamp) points
          × ((p : SparklinePoint Carrier)
              → Memᴰ p points ↔ (
                  (r : NodeSnapshot Carrier) × IsWanted inst node
                    (since now (sparkline_hours hours))
                    r
                  × IsPointOf (λ x. x.timestamp) value r p))
    unfolding handle_node_sparkline query_node_sparkline respond
    handle_node_sparkline-points now inst node hours metric value e h =
        let from = since now (sparkline_hours hours) in
        let ts : NodeSnapshot Carrier → ℤ = λ x. x.timestamp in
        let rows =
          d.node_snapshots.select (wanted_node fl sql_div d inst node from) ts s.node_snapshots in
        let has : HasValues ts value rows = λ r m. h r ((IsWanted-iff inst node from r).0 m) in
        (
          points_of ts value rows has,
          rw (e, scan_points-ok ts value rows has, query_node_sparkline) refl,
          points_of-Ascending ts value rows has (
              d.node_snapshots.select-Ascending (wanted_node fl sql_div d inst node from) ts
                s.node_snapshots),
          λ p.
              let scan = points_of-IsScan ts value rows has p in
              (
                λ m. let z = scan.0 m in (z.0, (IsWanted-iff inst node from z.0).0 z.1, z.2),
                λ z. scan.1 (z.0, (IsWanted-iff inst node from z.0).1 z.1, z.2),
              ),
        )
