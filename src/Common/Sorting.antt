-- ===== src/Common/Sorting.antt =====
-- Go's sort.Slice, as one of the orders that it may leave equal elements in, and the members of lists.
use mathlib.Core.List.{List, [], ◌∷◌, Memᴰ}
use mathlib.Core.List.Memᴰ
use mathlib.Core.List.Memᴰ.{head, tail}
use mathlib.Core.Path.{◌≡◌, sym, ap, ◌∙◌}
use mathlib.Core.Logic.{◌↔◌, inl, inr}
use mathlib.Core.Bool.{Bool, true, false}
use native.Mathlib.Omega.{arith}
use glint.Common.Int.{ℤ, ltb_ℤ}
use glint.Common.Lists.{filter}
use glint.Common.Tests.{Bool-cases, if◌then◌else◌}

-- A strict order on a numeric key is asymmetric.
pub ltb_ℤ_asym : (a b : ℤ) → ltb_ℤ a b ≡ true → ltb_ℤ b a ≡ false
ltb_ℤ_asym a b h = ground arith

-- No element is less than the one before it.
abbrev pub Sorted {ℓ} : {R : Type ℓ} → (R → R → Bool) → List R → Type 0
Sorted less [] = Unit
Sorted less (x ∷ []) = Unit
Sorted less (x ∷ y ∷ rest) = (less y x ≡ false) × Sorted less (y ∷ rest)

module _ {R : Type 0} where
  pub Mem-filter :
      (p : R → Bool) (r : R) (l : List R) → Memᴰ r (filter p l) ↔ (Memᴰ r l × (p r ≡ true))
  Mem-filter p r l = (into l, λ m. back l m.0 m.1)
    where
      into : (l : List R) → Memᴰ r (filter p l) → Memᴰ r l × (p r ≡ true)
      into [] m = elim m [ ]
      into (x ∷ l) m = elim (Bool-cases (p x)) [
        | inl t ↦ elim (Memᴰ.cases_cons (rw t at m)) [
          | inl e ↦ (head e, ap p e ∙ t)
          | inr m' ↦ let q = into l m' in (tail q.0, q.1)
        ]
        | inr t ↦ let q = into l (rw t at m) in (tail q.0, q.1)
      ]

      back : (l : List R) → Memᴰ r l → p r ≡ true → Memᴰ r (filter p l)
      back [] m h = elim m [ ]
      back (x ∷ l) (head e) h = rw (sym (ap p e) ∙ h) (head e)
      back (x ∷ l) (tail m) h = elim (Bool-cases (p x)) [
        | inl t ↦ rw t (tail (back l m h))
        | inr t ↦ rw t (back l m h)
      ]

  module _ (less : R → R → Bool) where
    unfoldable pub insert_ordered : R → List R → List R
    insert_ordered x [] = x ∷ []
    insert_ordered x (y ∷ l) =
        let rest = insert_ordered x l in if less y x then y ∷ rest else x ∷ y ∷ l

    unfoldable pub sort_slice : List R → List R
    sort_slice [] = []
    sort_slice (x ∷ l) = insert_ordered x (sort_slice l)

    Mem-insert_ordered : (x r : R) (l : List R) → Memᴰ r (insert_ordered x l) ↔ Memᴰ r (x ∷ l)
    unfolding insert_ordered
    Mem-insert_ordered x r l = (into l, back l)
      where
        swap : {y : R} {l : List R} → Memᴰ r (y ∷ x ∷ l) → Memᴰ r (x ∷ y ∷ l)
        swap (head e) = tail (head e)
        swap (tail (head e)) = head e
        swap (tail (tail m)) = tail (tail m)

        into : (l : List R) → Memᴰ r (insert_ordered x l) → Memᴰ r (x ∷ l)
        into [] m = m
        into (y ∷ l) m = elim (Bool-cases (less y x)) [
          | inr t ↦ rw t at m
          | inl t ↦ elim (Memᴰ.cases_cons (rw t at m)) [
            | inl e ↦ tail (head e)
            | inr m' ↦ swap (tail (into l m'))
          ]
        ]

        back : (l : List R) → Memᴰ r (x ∷ l) → Memᴰ r (insert_ordered x l)
        back [] m = m
        back (y ∷ l) m = elim (Bool-cases (less y x)) [
          | inr t ↦ rw t m
          | inl t ↦ rw t (elim m [
            | head e ↦ tail (back l (head e))
            | tail m' ↦ elim (Memᴰ.cases_cons m') [
              | inl e ↦ head e
              | inr m2 ↦ tail (back l (tail m2))
            ]
          ])
        ]

    pub Mem-sort_slice : (r : R) (l : List R) → Memᴰ r (sort_slice l) ↔ Memᴰ r l
    unfolding sort_slice
    Mem-sort_slice r l = (into l, back l)
      where
        into : (l : List R) → Memᴰ r (sort_slice l) → Memᴰ r l
        into [] m = m
        into (x ∷ l) m = elim (Memᴰ.cases_cons ((Mem-insert_ordered x r (sort_slice l)).0 m)) [
          | inl e ↦ head e
          | inr m' ↦ tail (into l m')
        ]

        back : (l : List R) → Memᴰ r l → Memᴰ r (sort_slice l)
        back [] m = m
        back (x ∷ l) (head e) = (Mem-insert_ordered x r (sort_slice l)).1 (head e)
        back (x ∷ l) (tail m) = (Mem-insert_ordered x r (sort_slice l)).1 (tail (back l m))

    module _ (asym : (x y : R) → less x y ≡ true → less y x ≡ false) where
      insert_ordered-Sorted :
          (x : R) (l : List R) → Sorted less l → Sorted less (insert_ordered x l)
      unfolding insert_ordered
      insert_ordered-Sorted x [] h = tt
      insert_ordered-Sorted x (y ∷ []) h = elim (Bool-cases (less y x)) [
        | inl t ↦ rw t (asym y x t, tt)
        | inr t ↦ rw t (t, tt)
      ]
      insert_ordered-Sorted x (y ∷ z ∷ l) h =
          let rest = insert_ordered-Sorted x (z ∷ l) h.1 in
          (elim (Bool-cases (less y x)) [
            | inr t ↦ rw t (t, h)
            | inl t ↦ elim (Bool-cases (less z x)) [
              | inl u ↦ rw (t, u) (h.0, (rw u at rest))
              | inr u ↦ rw (t, u) (asym y x t, (u, h.1))
            ]
          ])

      pub sort_slice-Sorted : (l : List R) → Sorted less (sort_slice l)
      unfolding sort_slice
      sort_slice-Sorted [] = tt
      sort_slice-Sorted (x ∷ l) = insert_ordered-Sorted x (sort_slice l) (sort_slice-Sorted l)
