-- ===== src/Common/Dict.antt =====
-- Go's maps, as association lists. A `range` loop visits the entries in the list's order, which stands
-- for the order that Go leaves open.
use mathlib.Core.Path.{◌≡◌, refl, subst, ap, ◌∙◌}
use mathlib.Core.Logic.{◌↔◌, inl, inr}
use mathlib.Core.Bool.{Bool, true, ◌&&◌}
use mathlib.Core.Option.{Option, none, some}
use mathlib.Core.List.{List, [], ◌∷◌}
use Prim.Native.Nat.{ℕ}
use native.Mathlib.Omega.{arith}
use glint.Common.Lists.{all, All}
use glint.Common.Tests.{Bool-cases, if◌then◌else◌, ◌==◌, ==_iff}
use glint.Common.Text.{Str, str_eq, str_eq_iff}
use glint.Common.Int.{ℤ, eqb_ℤ}

pub record Eq {ℓ} (A : Type ℓ) : Type ℓ where
  pub beq : A → A → Bool
  pub beq_iff : (a b : A) → (beq a b ≡ true) ↔ (a ≡ b)

instance abbrev pub str_key : Eq Str
str_key = record { beq = str_eq; beq_iff = str_eq_iff }

instance abbrev pub nat_key : Eq ℕ
nat_key = record { beq = ◌==◌; beq_iff = ==_iff }

pub eqb_ℤ_iff : (a b : ℤ) → (eqb_ℤ a b ≡ true) ↔ (a ≡ b)
eqb_ℤ_iff a b = ground arith

instance abbrev pub int_key : Eq ℤ
int_key = record { beq = eqb_ℤ; beq_iff = eqb_ℤ_iff }

pub pair_iff {ℓ κ} :
    {A : Type ℓ} {B : Type κ} (x y : A × B) {p q : Bool}
    → (p ≡ true) ↔ (x.0 ≡ y.0)
    → (q ≡ true) ↔ (x.1 ≡ y.1)
    → ((p && q) ≡ true) ↔ (x ≡ y)
pair_iff x y h k = (
  λ t. ap (λ z. (z, x.1)) (h.0 (ground (arith, t))) ∙ ap (λ z. (y.0, z)) (k.0 (ground (arith, t))),
  λ e. let p1 = h.1 (ap (λ z. z.0) e) in let p2 = k.1 (ap (λ z. z.1) e) in ground (arith, p1, p2),
)

-- A key of two columns.
instance abbrev pub pair_key {ℓ κ} : {A : Type ℓ} {B : Type κ} ⦃ea : Eq A⦄ ⦃eb : Eq B⦄ → Eq (A × B)
pair_key ⦃ea⦄ ⦃eb⦄ = record {
  beq = λ x y. ea.beq x.0 y.0 && eb.beq x.1 y.1;
  beq_iff = λ x y. pair_iff x y (ea.beq_iff x.0 y.0) (eb.beq_iff x.1 y.1);
}

abbrev pub Dict {ℓ κ} : Type ℓ → Type κ → Type (ℓ ⊔ κ)
Dict K V = List (K × V)

module _ {ℓ κ} {K : Type ℓ} {V : Type κ} ⦃e : Eq K⦄ where
  unfoldable pub lookup : K → Dict K V → Option V
  lookup k [] = none
  lookup k ((j, v) ∷ m) = if e.beq j k then some v else lookup k m

  -- m[k] = v
  unfoldable pub insert : K → V → Dict K V → Dict K V
  insert k v [] = (k, v) ∷ []
  insert k v ((j, w) ∷ m) = if e.beq j k then (k, v) ∷ m else (j, w) ∷ insert k v m

  -- delete(m, k)
  unfoldable pub erase : K → Dict K V → Dict K V
  erase k [] = []
  erase k ((j, w) ∷ m) = let rest = erase k m in if e.beq j k then rest else (j, w) ∷ rest

  pub lookup-insert :
      (k j : K) (v : V) (m : Dict K V)
      → lookup j (insert k v m) ≡ (if e.beq k j then some v else lookup j m)
  unfolding lookup insert
  lookup-insert k j v [] = refl
  lookup-insert k j v ((i, w) ∷ m) =
      ground (arith, e.beq_iff k j, e.beq_iff i k, e.beq_iff i j, lookup-insert k j v m)

  pub lookup-erase :
      (k j : K) (m : Dict K V) → lookup j (erase k m) ≡ (if e.beq k j then none else lookup j m)
  unfolding lookup erase
  lookup-erase k j [] = ground arith
  lookup-erase k j ((i, w) ∷ m) =
      ground (arith, e.beq_iff k j, e.beq_iff i k, e.beq_iff i j, lookup-erase k j m)

abbrev pub kept {ℓ} : {V : Type ℓ} → (V → Bool) → Option V → Option V
kept p none = none
kept p (some v) = if p v then some v else none

module _ {ℓ κ} {K : Type ℓ} {V : Type κ} ⦃e : Eq K⦄ where
  -- `for k, v := range m { if !p(v) { delete(m, k) } }`.
  unfoldable pub keep_values : (V → Bool) → Dict K V → Dict K V
  unfolding erase
  keep_values p [] = []
  keep_values p ((j, w) ∷ m) =
      let rest = keep_values p m in if p w then (j, w) ∷ rest else erase j rest

  pub lookup-keep_values :
      (p : V → Bool) (k : K) (m : Dict K V) → lookup k (keep_values p m) ≡ kept p (lookup k m)
  unfolding lookup keep_values
  lookup-keep_values p k [] = refl
  lookup-keep_values p k ((j, w) ∷ m) =
      ground (arith, e.beq_iff j k, lookup-erase j k (keep_values p m), lookup-keep_values p k m)

-- `maps.Copy(dst, src)`: the entries of `src` are written over those of `dst`.
module _ {ℓ κ} {K : Type ℓ} {V : Type κ} ⦃e : Eq K⦄ where
  unfoldable pub copy_into : Dict K V → Dict K V → Dict K V
  copy_into dst [] = dst
  copy_into dst ((j, w) ∷ src) = insert j w (copy_into dst src)

  pub lookup-copy_into :
      (k : K) (dst src : Dict K V)
      → lookup k (copy_into dst src)
        ≡ (elim (lookup k src) [ none ↦ lookup k dst | some v ↦ some v ])
  unfolding copy_into lookup
  lookup-copy_into k dst [] = refl
  lookup-copy_into k dst ((j, w) ∷ src) =
      ground (arith, lookup-insert j k w (copy_into dst src), lookup-copy_into k dst src)

-- The values, in iteration order.
module _ {ℓ κ} {K : Type ℓ} {V : Type κ} where
  unfoldable pub values : Dict K V → List V
  values [] = []
  values ((k, v) ∷ m) = v ∷ values m

-- What holds of every value holds of the value at a key.
module _ {ℓ κ} {K : Type ℓ} {V : Type κ} ⦃e : Eq K⦄ (p : V → Bool) where
  pub lookup-all :
      (k : K) (m : Dict K V) (v : V) → all (λ x. p x.1) m ≡ true → lookup k m ≡ some v → p v ≡ true
  unfolding lookup
  lookup-all k [] v h q = cc
  lookup-all k ((j, w) ∷ m) v h q = ground (arith, lookup-all k m v)

-- The same with a predicate.
module _ {ℓ κ ι} {K : Type ℓ} {V : Type κ} ⦃e : Eq K⦄ (P : V → Type ι) where
  pub All-lookup : (k : K) (m : Dict K V) (v : V) → All (λ x. P x.1) m → lookup k m ≡ some v → P v
  unfolding lookup
  All-lookup k [] v h q = cc
  All-lookup k ((j, w) ∷ m) v h q = elim (Bool-cases (e.beq j k)) [
    | inl t ↦ subst P (ground (arith, t)) h.0
    | inr f ↦ All-lookup k m v h.1 (ground (arith, f))
  ]

  pub All-insert :
      (k : K) (v : V) (m : Dict K V) → P v → All (λ x. P x.1) m → All (λ x. P x.1) (insert k v m)
  unfolding insert
  All-insert k v [] p h = (p, tt)
  All-insert k v ((j, w) ∷ m) p h = elim (Bool-cases (e.beq j k)) [
    | inl t ↦ rw t (p, h.1)
    | inr f ↦ rw f (h.0, All-insert k v m p h.1)
  ]
