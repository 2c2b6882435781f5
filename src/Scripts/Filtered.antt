-- ===== src/Scripts/Filtered.antt =====
-- The profile that scripts/coverage/main.go filters.
use glint.Common.{
  Bool, true, false, List, [], ◌∷◌, ◌++◌, ◌≡◌, ◌↔◌, ◌⊎◌, refl, ap, ◌∙◌, arith, All, filter,
  Bool-cases, inl, inr,
}
use glint.Common.Text.{Str, str, split, has_prefix, has_prefix-append}
use glint.Common.Text.Affix.{has_prefix_iff}
use glint.Common.Text.Split.{IsPiece, join, split-IsPiece, split-join}
use glint.Scripts.Coverage.{contains, filter_coverage_profile, is_kept}

filter-All :
    {A : Type 0} (P : A → Type 0) (p : A → Bool) (xs : List A) → All P xs → All P (filter p xs)
filter-All P p [] h = tt
filter-All P p (x ∷ xs) h = elim (Bool-cases (p x)) [
  | inl kept ↦ rw kept (h.0, filter-All P p xs h.1)
  | inr dropped ↦ rw dropped (filter-All P p xs h.1)
]

filter_idem : {A : Type 0} (p : A → Bool) (xs : List A) → filter p (filter p xs) ≡ filter p xs
filter_idem p [] = refl
filter_idem p (x ∷ xs) = elim (Bool-cases (p x)) [
  | inl kept ↦ rw (kept, filter) (rw kept (ap (λ l. x ∷ l) (filter_idem p xs)))
  | inr dropped ↦ rw dropped (filter_idem p xs)
]

-- The lines of a text without any: one that is empty.
abbrev pub or_blank : List Str → List Str
or_blank [] = [] ∷ []
or_blank (l ∷ ls) = l ∷ ls

split-join-or_blank :
    (ls : List Str) → All (IsPiece b'\n') ls → split (join b'\n' ls) b'\n' ≡ or_blank ls
unfolding join
split-join-or_blank [] a = split-join b'\n' [] [] (tt, tt)
split-join-or_blank (l ∷ ls) a = split-join b'\n' l ls a

lines_lem :
    (profile : Str)
    → split (filter_coverage_profile profile) b'\n'
      ≡ or_blank (filter is_kept (split profile b'\n'))
unfolding filter_coverage_profile
lines_lem profile =
    split-join-or_blank (filter is_kept (split profile b'\n'))
      (filter-All (IsPiece b'\n') is_kept (split profile b'\n') (split-IsPiece b'\n' profile))

join-filter-or_blank :
    (ls : List Str)
    → filter is_kept ls ≡ ls
    → join b'\n' (filter is_kept (or_blank ls)) ≡ join b'\n' ls
unfolding join is_kept contains has_prefix str
join-filter-or_blank [] e = refl
join-filter-or_blank (l ∷ ls) e = ap (join b'\n') e

-- The line starts with `mode:`, and it names a generated file.
abbrev pub IsMode : Str → Type 0
IsMode line = (rest : Str) × (line ≡ str "mode:" ++ rest)

abbrev pub IsGenerated : Str → Type 0
IsGenerated line = (before after : Str) × (line ≡ before ++ (str "_templ.go:" ++ after))

contains_iff :
    (s t : Str) → (contains s t ≡ true) ↔ ((before after : Str) × (s ≡ before ++ (t ++ after)))
unfolding contains
contains_iff s t = (into s, λ h. let (before, after, e) = h in rw e (back before after))
  where
    at_front :
        (s : Str) → has_prefix s t ≡ true → (before after : Str) × (s ≡ before ++ (t ++ after))
    at_front s h = let (rest, e) = (has_prefix_iff s t).0 h in ([], rest, e)

    into : (s : Str) → contains s t ≡ true → (before after : Str) × (s ≡ before ++ (t ++ after))
    into [] h = at_front [] h
    into (c ∷ s) h = elim (Bool-cases (has_prefix (c ∷ s) t)) [
      | inl here ↦ at_front (c ∷ s) here
      | inr other ↦
          let (before, after, e) = into s (ground (arith, h, other)) in
          (c ∷ before, after, ap (λ x. c ∷ x) e)
    ]

    whole : (s : Str) → has_prefix s t ≡ true → contains s t ≡ true
    whole [] h = h
    whole (c ∷ s) h = ground (arith, h)

    back : (before after : Str) → contains (before ++ (t ++ after)) t ≡ true
    back [] after = whole (t ++ after) (has_prefix-append t after)
    back (c ∷ before) after = let ih = back before after in ground (arith, ih)

is_kept_iff : (line : Str) → (is_kept line ≡ true) ↔ (IsMode line ⊎ (¬ IsGenerated line))
is_kept_iff line =
    let mode = has_prefix_iff line (str "mode:") in
    let generated = contains_iff line (str "_templ.go:") in
    elim (Bool-cases (has_prefix line (str "mode:"))) [
      | inl m ↦ (λ _. inl (mode.0 m), λ _. unfold is_kept in rw m refl)
      | inr m ↦ elim (Bool-cases (contains line (str "_templ.go:"))) [
        | inl g ↦ (
          λ k.
              let dropped : is_kept line ≡ false = unfold is_kept in rw (m, g) refl in
              cc (k, dropped),
          λ h. elim h [
            | inl x ↦ let there = mode.1 x in cc (there, m)
            | inr x ↦ absurd (x (generated.0 g))
          ],
        )
        | inr g ↦ (
          λ _. inr (λ x. let there = generated.1 x in cc (there, g)),
          λ _. unfold is_kept in rw (m, g) refl,
        )
      ]
    ]

-- The lines of the filtered profile are the lines of the profile that are kept, in their order, or one empty
-- line if there is none; a line is kept exactly when it starts with mode: or has nowhere in it the text
-- _templ.go: of a generated file; and filtering the filtered profile again changes nothing.
pub filter_coverage_profile_idem :
    (profile : Str)
    → (split (filter_coverage_profile profile) b'\n'
        ≡ or_blank (filter is_kept (split profile b'\n')))
      × ((line : Str) → (is_kept line ≡ true) ↔ (IsMode line ⊎ (¬ IsGenerated line)))
      × (filter_coverage_profile (filter_coverage_profile profile)
          ≡ filter_coverage_profile profile)
filter_coverage_profile_idem profile = (
  lines_lem profile,
  is_kept_iff,
  (unfold filter_coverage_profile in
      ap (λ ls. join b'\n' (filter is_kept ls)) (lines_lem profile)
      ∙ join-filter-or_blank (filter is_kept (split profile b'\n'))
          (filter_idem is_kept (split profile b'\n'))),
)
