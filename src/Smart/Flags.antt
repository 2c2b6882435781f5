-- ===== src/Smart/Flags.antt =====
-- The bits of a SMART status, over the eight combinations of its three lowest flags.
use Prim.Native.Nat.{bit_or, bit_and}
use glint.Common.{
  ℕ, zero, suc, ◌<◌, ◌≡◌, refl, Bool, true, false, not, ◌&&◌, ◌||◌, arith, ◌==◌, ltb,
}

-- `status & flag != 0`.
unfoldable pub has_flag : ℕ → ℕ → Bool
has_flag status flag = not (bit_and status flag == 0)

-- A test passes on every number below the first argument.
unfoldable pub holds_under : ℕ → (ℕ → Bool) → Bool
holds_under zero p = true
holds_under (suc n) p = holds_under n p && p n

pub holds_under-at : (n : ℕ) (p : ℕ → Bool) (i : ℕ) → holds_under n p ≡ true → i < n → p i ≡ true
unfolding holds_under
holds_under-at zero p i all below = absurd (omega arith)
holds_under-at (suc n) p i all below = ground (arith, holds_under-at n p i)

-- Whether two Booleans are equal.
unfoldable pub same : Bool → Bool → Bool
same true b = b
same false b = not b

pub same-eq : (a b : Bool) → same a b ≡ true → a ≡ b
unfolding same
same-eq a b h = ground arith

flags_agree : ℕ → ℕ → ℕ → Bool
unfolding same has_flag
flags_agree f s t = same (has_flag (bit_or s t) f) (has_flag s f || has_flag t f)

flags_table : holds_under 8 (λ f. holds_under 8 (λ s. holds_under 8 (flags_agree f s))) ≡ true
unfolding holds_under flags_agree
flags_table = refl

pub has_flag-bit_or :
    (f s t : ℕ) → f < 8 → s < 8 → t < 8 → has_flag (bit_or s t) f ≡ (has_flag s f || has_flag t f)
unfolding flags_agree
has_flag-bit_or f s t hf hs ht = same-eq _ _ (
    holds_under-at 8 (flags_agree f s) t
      (holds_under-at 8 (λ s. holds_under 8 (flags_agree f s)) s
        (holds_under-at 8 (λ f. holds_under 8 (λ s. holds_under 8 (flags_agree f s))) f flags_table
          hf)
        hs)
      ht)

bounds_table : holds_under 8 (λ s. holds_under 8 (λ t. ltb (bit_or s t) 8)) ≡ true
unfolding holds_under
bounds_table = refl

ltb→lt : (a b : ℕ) → ltb a b ≡ true → a < b
ltb→lt a b h = ground arith

pub bit_or-lt : (s t : ℕ) → s < 8 → t < 8 → bit_or s t < 8
bit_or-lt s t hs ht = ltb→lt _ _ (
    holds_under-at 8 (λ t. ltb (bit_or s t) 8) t
      (holds_under-at 8 (λ s. holds_under 8 (λ t. ltb (bit_or s t) 8)) s bounds_table hs) ht)

zero_table : holds_under 8 (λ f. not (has_flag 0 f)) ≡ true
unfolding holds_under has_flag
zero_table = refl

pub has_flag-zero : (f : ℕ) → f < 8 → has_flag 0 f ≡ false
has_flag-zero f hf = ground (arith, holds_under-at 8 (λ f. not (has_flag 0 f)) f zero_table hf)
