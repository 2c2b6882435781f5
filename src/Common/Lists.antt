-- ===== src/Common/Lists.antt =====
-- Lists measured by the native numbers, and predicates on all of their members.
use Prim.Native.Nat.{ℕ, suc, ◌+◌}
use mathlib.Core.Path.{◌≡◌, refl, sym, subst}
use mathlib.Core.Option.{Option, none, some}
use mathlib.Core.Bool.{Bool, true, false, ◌&&◌, ◌||◌}
use mathlib.Core.List.{List, Memᴰ, [], ◌∷◌, ◌++◌}
use mathlib.Core.List.Memᴰ.{head, tail}
use glint.Common.Tests.{if◌then◌else◌}
use native.Mathlib.Omega.{arith}

module _ {ℓ} {A : Type ℓ} where
  abbrev pub length : List A → ℕ
  length [] = 0
  length (x ∷ xs) = suc (length xs)

  abbrev pub All {κ} : (A → Type κ) → List A → Type κ
  All P [] = Unit
  All P (x ∷ xs) = P x × All P xs

  -- Some member passes the test.
  abbrev pub any : (A → Bool) → List A → Bool
  any p [] = false
  any p (x ∷ xs) = p x || any p xs

  abbrev pub all : (A → Bool) → List A → Bool
  all p [] = true
  all p (x ∷ xs) = p x && all p xs

  -- `append` of what an optional result holds.
  abbrev pub cons_some : Option A → List A → List A
  cons_some none xs = xs
  cons_some (some a) xs = a ∷ xs

  pub All-cons_some {κ} :
      (P : A → Type κ) (o : Option A) (xs : List A)
      → ((a : A) → o ≡ some a → P a)
      → All P xs
      → All P (cons_some o xs)
  All-cons_some P none xs f h = h
  All-cons_some P (some a) xs f h = (f a refl, h)

  pub length-append : (xs ys : List A) → length (xs ++ ys) ≡ length xs + length ys
  length-append [] ys = omega arith
  length-append (x ∷ xs) ys = omega (arith, length-append xs ys)

  pub All-append {κ} : (P : A → Type κ) (xs ys : List A) → All P xs → All P ys → All P (xs ++ ys)
  All-append P [] ys hx hy = hy
  All-append P (x ∷ xs) ys hx hy = (hx.0, All-append P xs ys hx.1 hy)

  pub All-map {κ ι} :
      {P : A → Type κ} {Q : A → Type ι} (f : (x : A) → P x → Q x) (xs : List A)
      → All P xs
      → All Q xs
  All-map f [] h = tt
  All-map f (x ∷ xs) h = (f x h.0, All-map f xs h.1)

  pub All-Mem {κ} : (P : A → Type κ) (b : A) (l : List A) → All P l → Memᴰ b l → P b
  All-Mem P b [] h m = elim m [ ]
  All-Mem P b (x ∷ l) h (head e) = subst P (sym e) h.0
  All-Mem P b (x ∷ l) h (tail m) = All-Mem P b l h.1 m

  pub any-Mem : (p : A → Bool) (x : A) (xs : List A) → p x ≡ true → Memᴰ x xs → any p xs ≡ true
  any-Mem p x [] h m = elim m [ ]
  any-Mem p x (y ∷ ys) h (head e) = let here : p y ≡ true = rw (← e) h in rw here refl
  any-Mem p x (y ∷ ys) h (tail m) = ground (arith, any-Mem p x ys h m)

  -- The members that pass the test.
  abbrev pub filter : (A → Bool) → List A → List A
  filter p [] = []
  filter p (x ∷ xs) = let rest = filter p xs in if p x then x ∷ rest else rest

  -- How many members pass the test.
  abbrev pub count : (A → Bool) → List A → ℕ
  count p [] = 0
  count p (x ∷ xs) = let n = count p xs in if p x then suc n else n

  -- The members of all the lists that stand in the entries.
  abbrev pub concat_values {κ} : {B : Type κ} → (B → List A) → List B → List A
  concat_values f [] = []
  concat_values f (x ∷ xs) = f x ++ concat_values f xs

  -- A loop that threads a state.
  unfoldable pub fold {κ} : {S : Type κ} → (A → S → S) → List A → S → S
  fold f [] s = s
  fold f (x ∷ xs) s = fold f xs (f x s)

-- What one round of a loop adds to a number of its state, the loop adds once for each member.
pub fold-length {ℓ κ} :
    {A : Type ℓ} {S : Type κ} (f : A → S → S) (m : S → ℕ)
    → ((x : A) (s : S) → m (f x s) ≡ m s + 1)
    → (xs : List A) (s : S) → m (fold f xs s) ≡ m s + length xs
unfolding fold
fold-length f m h [] s = omega arith
fold-length f m h (x ∷ xs) s = omega (arith, fold-length f m h xs (f x s), h x s)

-- What each round of a loop keeps, the loop keeps.
pub fold-keeps {ℓ κ ι} :
    {A : Type ℓ} {S : Type κ} (f : A → S → S) (P : S → Type ι)
    → ((x : A) (s : S) → P s → P (f x s))
    → (xs : List A) (s : S) → P s
    → P (fold f xs s)
unfolding fold
fold-keeps f P h [] s p = p
fold-keeps f P h (x ∷ xs) s p = fold-keeps f P h xs (f x s) (h x s p)
