-- ===== src/Common/Text/Split.antt =====
-- Splitting a text at a byte, and joining the pieces again.
use Prim.Native.Nat.{ℕ}
use mathlib.Core.Path.{◌≡◌, refl, ap, ◌∙◌}
use mathlib.Core.Logic.{inl, inr}
use mathlib.Core.Bool.{true, false}
use mathlib.Core.List.{List, [], ◌∷◌, ◌++◌, reverse, reverse-cons, append-nil, append_assoc}
use native.Mathlib.Omega.{arith}
use glint.Common.Tests.{◌==◌, Bool-cases}
use glint.Common.Lists.{All, All-append}
use glint.Common.Text.{Str, split, split_at}

module _ (sep : ℕ) where
  -- No byte of the piece is the separator.
  abbrev pub IsPiece : Str → Type 0
  IsPiece = All (λ c. (c == sep) ≡ false)

  -- The pieces with the separator between them.
  unfoldable pub join : List Str → Str
  join [] = []
  join (l ∷ []) = l
  join (l ∷ m ∷ ls) = l ++ (sep ∷ join (m ∷ ls))

  reverse-IsPiece : (s : Str) → IsPiece s → IsPiece (reverse s)
  reverse-IsPiece [] h = tt
  reverse-IsPiece (c ∷ s) h =
      rw (reverse-cons c s) (
        All-append (λ c. (c == sep) ≡ false) (reverse s) (c ∷ []) (reverse-IsPiece s h.1) (h.0, tt))

  split_at-IsPiece : (s piece : Str) → IsPiece piece → All IsPiece (split_at sep s piece)
  unfolding split_at
  split_at-IsPiece [] piece h = (reverse-IsPiece piece h, tt)
  split_at-IsPiece (c ∷ s) piece h = elim (Bool-cases (c == sep)) [
    | inl here ↦ rw here (reverse-IsPiece piece h, split_at-IsPiece s [] tt)
    | inr other ↦ rw other (split_at-IsPiece s (c ∷ piece) (other, h))
  ]

  pub split-IsPiece : (s : Str) → All IsPiece (split s sep)
  unfolding split
  split-IsPiece s = split_at-IsPiece s [] tt

  shift : (c : ℕ) (piece l : Str) → reverse (c ∷ piece) ++ l ≡ reverse piece ++ (c ∷ l)
  shift c piece l = rw (reverse-cons c piece) (append_assoc (reverse piece) (c ∷ []) l)

  split_at-last : (l piece : Str) → IsPiece l → split_at sep l piece ≡ (reverse piece ++ l) ∷ []
  unfolding split_at
  split_at-last [] piece h = rw append-nil refl
  split_at-last (c ∷ l) piece h =
      rw h.0 (split_at-last l (c ∷ piece) h.1 ∙ ap (λ x. x ∷ []) (shift c piece l))

  split_at-next :
      (l rest piece : Str)
      → IsPiece l
      → split_at sep (l ++ sep ∷ rest) piece ≡ (reverse piece ++ l) ∷ split_at sep rest []
  unfolding split_at
  split_at-next [] rest piece h =
      let e : (sep == sep) ≡ true = ground arith in rw (e, append-nil) refl
  split_at-next (c ∷ l) rest piece h =
      rw h.0 (
        split_at-next l rest (c ∷ piece) h.1 ∙ ap (λ x. x ∷ split_at sep rest []) (shift c piece l))

  -- Pieces that are joined are split again.
  pub split-join :
      (l : Str) (ls : List Str) → All IsPiece (l ∷ ls) → split (join (l ∷ ls)) sep ≡ l ∷ ls
  unfolding split join
  split-join l [] h = split_at-last l [] h.0
  split-join l (m ∷ ls) h =
      split_at-next l (join (m ∷ ls)) [] h.0 ∙ ap (λ x. l ∷ x) (split-join m ls h.1)
