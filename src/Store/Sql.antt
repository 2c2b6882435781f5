-- ===== src/Store/Sql.antt =====
-- What the store asks of SQLite: the tables with a primary key, and the alert log, whose key the database
-- counts itself. They are parameters of the store, with the behaviour that SQL documents as laws.
use mathlib.Core.List.{Memᴰ}
use glint.Common.{
  ◌≡◌, ◌↔◌, Bool, true, not, Option, some, List, [], ◌∷◌, ◌++◌, if◌then◌else◌, filter,
}
use glint.Common.Int.{ℤ, ltb_ℤ}
use glint.Common.Sorting.{Sorted}
use glint.Common.Dict.{Eq, kept}

-- In the order of a column, ascending.
abbrev pub Ascending {ℓ} : {R : Type ℓ} → (R → ℤ) → List R → Type 0
Ascending f l = Sorted (λ a b. ltb_ℤ (f a) (f b)) l

-- A table whose rows have the type `R` and whose primary key is `key`.
pub record Table (K R : Type 0) (e : Eq K) (key : R → K) : Type 1 where
  pub Rows : Type 0
  -- The row with a primary key.
  pub find : K → Rows → Option R
  -- INSERT OR REPLACE INTO.
  pub replace : R → Rows → Rows
  -- DELETE FROM … WHERE.
  pub delete : (R → Bool) → Rows → Rows
  -- SELECT … WHERE … ORDER BY … ASC.
  pub select : (R → Bool) → (R → ℤ) → Rows → List R
  pub key-find : (k : K) (t : Rows) (r : R) → find k t ≡ some r → key r ≡ k
  pub find-replace :
      (k : K) (r : R) (t : Rows)
      → find k (replace r t) ≡ (if e.beq (key r) k then some r else find k t)
  pub find-delete :
      (p : R → Bool) (k : K) (t : Rows) → find k (delete p t) ≡ kept (λ r. not (p r)) (find k t)
  pub select_iff :
      (p : R → Bool) (f : R → ℤ) (t : Rows) (r : R)
      → Memᴰ r (select p f t) ↔ ((find (key r) t ≡ some r) × (p r ≡ true))
  pub select-Ascending : (p : R → Bool) (f : R → ℤ) (t : Rows) → Ascending f (select p f t)

-- A table with an AUTOINCREMENT key, in the order of the keys.
pub record Log (R : Type 0) : Type 1 where
  pub Rows : Type 0
  pub entries : Rows → List R
  -- INSERT INTO.
  pub append : R → Rows → Rows
  -- DELETE FROM … WHERE.
  pub delete : (R → Bool) → Rows → Rows
  pub entries-append : (r : R) (t : Rows) → entries (append r t) ≡ entries t ++ r ∷ []
  pub entries-delete :
      (p : R → Bool) (t : Rows) → entries (delete p t) ≡ filter (λ r. not (p r)) (entries t)
