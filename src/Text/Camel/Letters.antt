-- ===== src/Text/Camel/Letters.antt =====
-- What CamelToSnake of internal/encodingtooling/cameltosnake.go does to the letters of a name.
use issue.Base.{
  ◌≡◌, refl, ◌∙◌, ap, ℕ, false, [], ◌∷◌, ◌++◌, Bytes, ◌==◌, if◌then◌else◌, Bool-cases, inl, inr,
  All, All-append, of_branches,
}
use issue.Text.Unicode.{Unicode}
use issue.Text.Camel.{Previous, start, lower, upper, edge, camel_from, camel_to_snake}

-- The code points other than the separator.
abbrev pub letters : Bytes → Bytes
letters [] = []
letters (c ∷ s) = if c == b'_' then letters s else c ∷ letters s

module _ (unicode : Unicode) where
  abbrev pub lowered : Bytes → Bytes
  lowered [] = []
  lowered (c ∷ s) = (if unicode.is_upper c then unicode.to_lower c else c) ∷ lowered s

  letters-edge :
      (prev : Previous) (rest s : Bytes) → letters (edge unicode prev rest ++ s) ≡ letters s
  unfolding edge
  letters-edge start rest s = refl
  letters-edge lower rest s = refl
  letters-edge upper [] s = refl
  letters-edge upper (next ∷ rest) s = elim (Bool-cases (unicode.is_lower next)) [
    | inl small ↦ rw small refl
    | inr other ↦ rw other refl
  ]

  letters-camel_from :
      (prev : Previous) (s : Bytes) → letters (camel_from unicode prev s) ≡ letters (lowered s)
  unfolding camel_from
  letters-camel_from prev [] = refl
  letters-camel_from prev (c ∷ s) = elim (Bool-cases (unicode.is_upper c)) [
    | inl capital ↦ rw capital (
        letters-edge prev s (unicode.to_lower c ∷ camel_from unicode upper s)
        ∙ rw (letters-camel_from upper s) refl)
    | inr small ↦ rw small (rw (letters-camel_from lower s) refl)
  ]

  abbrev pub IsSmall : Bytes → Type 0
  IsSmall s = All (λ c. unicode.is_upper c ≡ false) s

  small-Fixed : (prev : Previous) (s : Bytes) → IsSmall s → camel_from unicode prev s ≡ s
  unfolding camel_from
  small-Fixed prev [] h = refl
  small-Fixed prev (c ∷ s) (small, h) = rw small (ap (λ t. c ∷ t) (small-Fixed lower s h))

  module _ (to_lower_small : (c : ℕ) → unicode.is_upper (unicode.to_lower c) ≡ false)
      (separator_small : unicode.is_upper b'_' ≡ false) where
    edge-IsSmall : (prev : Previous) (rest : Bytes) → IsSmall (edge unicode prev rest)
    unfolding edge
    edge-IsSmall start rest = tt
    edge-IsSmall lower rest = (separator_small, tt)
    edge-IsSmall upper [] = tt
    edge-IsSmall upper (next ∷ rest) =
        of_branches IsSmall (unicode.is_lower next) (separator_small, tt) tt

    camel_from-IsSmall : (prev : Previous) (s : Bytes) → IsSmall (camel_from unicode prev s)
    unfolding camel_from
    camel_from-IsSmall prev [] = tt
    camel_from-IsSmall prev (c ∷ s) = elim (Bool-cases (unicode.is_upper c)) [
      | inl capital ↦ rw capital (
          All-append (λ c. unicode.is_upper c ≡ false) (edge unicode prev s)
            (unicode.to_lower c ∷ camel_from unicode upper s) (edge-IsSmall prev s)
            (to_lower_small c, camel_from-IsSmall upper s))
      | inr small ↦ rw small (small, camel_from-IsSmall lower s)
    ]

    -- CamelToSnake keeps every code point that is no separator, in its order and as a small letter,
    -- leaves no capital, and does not change what it returned: where no small letter and not the
    -- separator is a capital.
    pub camel_to_snake-letters :
        (s : Bytes)
        → (letters (camel_to_snake unicode s) ≡ letters (lowered s))
          × IsSmall (camel_to_snake unicode s)
          × (camel_to_snake unicode (camel_to_snake unicode s) ≡ camel_to_snake unicode s)
    unfolding camel_to_snake
    camel_to_snake-letters s =
        let small = camel_from-IsSmall start s in
        (letters-camel_from start s, small, small-Fixed start (camel_from unicode start s) small)
