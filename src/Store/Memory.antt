-- ===== src/Store/Memory.antt =====
-- Tables in memory, which behave as Store.Sql asks: lists of rows, the newer first.
use mathlib.Core.List.{Memᴰ}
use mathlib.Core.List.Memᴰ
use mathlib.Core.List.Memᴰ.{head, tail}
use glint.Common.{
  ◌≡◌, refl, ◌↔◌, inl, inr, Bool, not, Option, none, some, List, [], ◌∷◌, ◌++◌, arith, Bool-cases,
  filter, if◌then◌else◌,
}
use glint.Common.Int.{ltb_ℤ}
use glint.Common.Dict.{Eq, kept}
use glint.Common.Sorting.{ltb_ℤ_asym, Mem-filter, Mem-sort_slice, sort_slice, sort_slice-Sorted}
use glint.Store.Sql.{Log, Table}

module _ {K R : Type 0} (e : Eq K) (key : R → K) where
  -- The newest row with the key.
  unfoldable find : K → List R → Option R
  find k [] = none
  find k (r ∷ t) = if e.beq (key r) k then some r else find k t

  abbrev drop_key : K → List R → List R
  drop_key k t = filter (λ r. not (e.beq (key r) k)) t

  unfoldable delete : (R → Bool) → List R → List R
  delete p [] = []
  delete p (r ∷ t) = let rest = delete p t in if p r then drop_key (key r) rest else r ∷ rest

  -- The newest row of each key.
  unfoldable visible : List R → List R
  visible [] = []
  visible (r ∷ t) = r ∷ drop_key (key r) (visible t)

  key-find : (k : K) (t : List R) (r : R) → find k t ≡ some r → key r ≡ k
  unfolding find
  key-find k [] r h = cc
  key-find k (x ∷ t) r h = ground (arith, key-find k t r, e.beq_iff (key x) k)

  find-drop_key :
      (j k : K) (t : List R) → find k (drop_key j t) ≡ (if e.beq j k then none else find k t)
  unfolding find
  find-drop_key j k [] = ground arith
  find-drop_key j k (x ∷ t) =
      ground (arith, find-drop_key j k t, e.beq_iff (key x) k, e.beq_iff (key x) j, e.beq_iff j k)

  find-delete :
      (p : R → Bool) (k : K) (t : List R) → find k (delete p t) ≡ kept (λ r. not (p r)) (find k t)
  unfolding find delete
  find-delete p k [] = refl
  find-delete p k (x ∷ t) = ground (arith, find-delete p k t, find-drop_key (key x) k (delete p t))

  Mem-visible : (r : R) (t : List R) → Memᴰ r (visible t) ↔ (find (key r) t ≡ some r)
  unfolding find visible
  Mem-visible r t = (into t, back t)
    where
      into : (t : List R) → Memᴰ r (visible t) → find (key r) t ≡ some r
      into [] m = elim m [ ]
      into (x ∷ t) m = elim (Memᴰ.cases_cons m) [
        | inl q ↦ rw (q, (e.beq_iff (key x) (key x)).1 refl) refl
        | inr m' ↦
            let (n, h) = (Mem-filter (λ y. not (e.beq (key y) (key x))) r (visible t)).0 m' in
            ground (arith, into t n, h, e.beq_iff (key x) (key r), e.beq_iff (key r) (key x))
      ]

      back : (t : List R) → find (key r) t ≡ some r → Memᴰ r (visible t)
      back [] h = absurd cc
      back (x ∷ t) h = elim (Bool-cases (e.beq (key x) (key r))) [
        | inl q ↦ head (ground (arith, q))
        | inr q ↦ tail (
            (Mem-filter (λ y. not (e.beq (key y) (key x))) r (visible t)).1 (
              back t (ground (arith, q)),
              ground (arith, q, e.beq_iff (key x) (key r), e.beq_iff (key r) (key x)),
            ))
      ]

  -- A table in memory.
  unfoldable pub memory : Table K R e key
  unfolding find delete visible key-find find-delete Mem-visible find-drop_key
  memory = record {
    Rows = List R;
    find = find;
    replace = λ r t. r ∷ t;
    delete = delete;
    select = λ p f t. sort_slice (λ a b. ltb_ℤ (f a) (f b)) (filter p (visible t));
    key-find = key-find;
    find-replace = λ k r t. refl;
    find-delete = find-delete;
    select_iff = λ p f t r.
        let o = Mem-sort_slice (λ a b. ltb_ℤ (f a) (f b)) r (filter p (visible t)) in
        let q = Mem-filter p r (visible t) in
        let v = Mem-visible r t in
        (λ m. let n = q.0 (o.0 m) in (v.0 n.0, n.1), λ n. o.1 (q.1 (v.1 n.0, n.1)));
    select-Ascending = λ p f t.
        sort_slice-Sorted (λ a b. ltb_ℤ (f a) (f b)) (λ a b. ltb_ℤ_asym (f a) (f b))
          (filter p (visible t));
  }

-- A log in memory.
unfoldable pub memory_log : {R : Type 0} → Log R
memory_log {R} = record {
  Rows = List R;
  entries = λ t. t;
  append = λ r t. t ++ r ∷ [];
  delete = λ p t. filter (λ r. not (p r)) t;
  entries-append = λ r t. refl;
  entries-delete = λ p t. refl;
}
