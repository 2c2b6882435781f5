-- ===== src/Common/Text/Affix.antt =====
-- What strings.HasPrefix, HasSuffix and Contains say of a text: how it is put together.
use mathlib.Core.Path.{◌≡◌, refl, sym, ap, ◌∙◌}
use mathlib.Core.Logic.{◌↔◌}
use mathlib.Core.Bool.{true}
use mathlib.Core.List.{[], ◌∷◌, ◌++◌, reverse, reverse-append, reverse-reverse}
use native.Mathlib.Omega.{arith}
use glint.Common.Text.{Str, has_prefix, has_suffix, has_prefix-append}

pub has_prefix_iff : (s p : Str) → (has_prefix s p ≡ true) ↔ ((rest : Str) × (s ≡ p ++ rest))
unfolding has_prefix
has_prefix_iff s p = (into s p, λ h. rw h.1 (has_prefix-append p h.0))
  where
    into : (s p : Str) → has_prefix s p ≡ true → (rest : Str) × (s ≡ p ++ rest)
    into s [] h = (s, refl)
    into [] (d ∷ p) h = cc
    into (c ∷ s) (d ∷ p) h =
        let same : c ≡ d = ground (arith, h) in
        let (rest, e) = into s p (ground (arith, h)) in (rest, cc (same, e))

pub has_suffix_iff : (s p : Str) → (has_suffix s p ≡ true) ↔ ((front : Str) × (s ≡ front ++ p))
unfolding has_suffix
has_suffix_iff s p = (into, back)
  where
    into : has_suffix s p ≡ true → (front : Str) × (s ≡ front ++ p)
    into h =
        let (rest, e) = (has_prefix_iff (reverse s) (reverse p)).0 h in
        (
          reverse rest,
          sym (reverse-reverse s)
              ∙ ap reverse e
              ∙ reverse-append (reverse p) rest
              ∙ ap (λ t. reverse rest ++ t) (reverse-reverse p),
        )

    back : (front : Str) × (s ≡ front ++ p) → has_suffix s p ≡ true
    back (front, e) =
        (has_prefix_iff (reverse s) (reverse p)).1
          (reverse front, ap reverse e ∙ reverse-append front p)
