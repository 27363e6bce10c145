-- ===== src/Text/Snake/Shape.antt =====
-- The shape of what toSnakeCase of internal/logfmt/logfmt.go returns.
use issue.Base.{
  ◌≡◌, refl, ◌∙◌, sym, subst, ◌≢◌, ◌⊎◌, inl, inr, ℕ, ◌+◌, ◌-◌, Bool, true, false, not, ◌&&◌, ◌||◌,
  [], ◌∷◌, ◌++◌, Bytes, Option, none, some, ◌==◌, if◌then◌else◌, Bool-cases, All, All-append, arith,
}
use issue.Text.Snake.{
  is_upper, is_lower_alpha_num, is_upper_before, is_empty, separator_unless, convert_one, convert,
  trim_left, trim_right, normalize, to_snake_case,
}

-- What may follow: behind the start or a separator, a letter or a digit has to.
abbrev pub Follows : Bool → Bytes → Type 0
Follows true [] = ⊥
Follows false [] = Unit
Follows true (c ∷ s) = (is_lower_alpha_num c ≡ true) × Follows false s
Follows false (c ∷ s) =
    ((c ≡ b'_') × Follows true s) ⊎ ((is_lower_alpha_num c ≡ true) × Follows false s)

-- Words of small letters and digits with one separator between two of them, or nothing.
abbrev pub IsSnake : Bytes → Type 0
IsSnake s = (s ≡ []) ⊎ Follows true s

-- The last code point, if there is one, is a letter or a digit.
abbrev pub EndsWell : Bytes → Type 0
EndsWell [] = Unit
EndsWell (c ∷ []) = is_lower_alpha_num c ≡ true
EndsWell (c ∷ d ∷ s) = EndsWell (d ∷ s)

-- What the first loop writes: separators, small letters and digits.
abbrev pub Fits : ℕ → Type 0
Fits c = (c ≡ b'_') ⊎ (is_lower_alpha_num c ≡ true)

pub word_ne_separator : (c : ℕ) → is_lower_alpha_num c ≡ true → (c == b'_') ≡ false
unfolding is_lower_alpha_num
word_ne_separator c h = ground arith

pub normalize-word :
    (repeating : Bool) (c : ℕ) (s : Bytes)
    → is_lower_alpha_num c ≡ true
    → normalize repeating (c ∷ s) ≡ c ∷ normalize false s
unfolding normalize
normalize-word repeating c s h = rw (word_ne_separator c h, h) refl

pub normalize-separator : (s : Bytes) → normalize false (b'_' ∷ s) ≡ b'_' ∷ normalize true s
unfolding normalize
normalize-separator s = refl

pub normalize-repeated : (s : Bytes) → normalize true (b'_' ∷ s) ≡ normalize true s
unfolding normalize
normalize-repeated s = refl

separator_ends_badly : is_lower_alpha_num b'_' ≢ true
unfolding is_lower_alpha_num
separator_ends_badly h = cc h

pub nothing_left : normalize false [] ≡ []
unfolding normalize
nothing_left = refl

normalize-nothing : Follows false (normalize false [])
unfolding normalize
normalize-nothing = tt

normalize-Follows :
    (repeating : Bool) (c : ℕ) (s : Bytes)
    → All Fits (c ∷ s)
    → EndsWell (c ∷ s)
    → Follows repeating (normalize repeating (c ∷ s))
normalize-Follows repeating c [] (inl e, fits) ends =
    absurd (separator_ends_badly (subst (λ r. is_lower_alpha_num r ≡ true) e ends))
normalize-Follows true c [] (inr word, fits) ends =
    rw (normalize-word true c [] word) (word, normalize-nothing)
normalize-Follows false c [] (inr word, fits) ends =
    rw (normalize-word false c [] word) (inr (word, normalize-nothing))
normalize-Follows true c (d ∷ s) (inr word, fits) ends =
    rw (normalize-word true c (d ∷ s) word) (word, normalize-Follows false d s fits ends)
normalize-Follows false c (d ∷ s) (inr word, fits) ends =
    rw (normalize-word false c (d ∷ s) word) (inr (word, normalize-Follows false d s fits ends))
normalize-Follows true c (d ∷ s) (inl e, fits) ends =
    subst (λ r. Follows true (normalize true (r ∷ d ∷ s))) (sym e)
      (rw (normalize-repeated (d ∷ s)) (normalize-Follows true d s fits ends))
normalize-Follows false c (d ∷ s) (inl e, fits) ends =
    subst (λ r. Follows false (normalize false (r ∷ d ∷ s))) (sym e)
      (rw (normalize-separator (d ∷ s)) (inl (refl, normalize-Follows true d s fits ends)))

letter-Fits : (r : ℕ) → is_upper r ≡ true → Fits (r - b'A' + b'a')
unfolding is_upper is_lower_alpha_num
letter-Fits r h = inr (ground arith)

separator_unless-Fits : (b : Bool) → All Fits (separator_unless b)
unfolding separator_unless
separator_unless-Fits true = tt
separator_unless-Fits false = (inl refl, tt)

convert_one-Fits :
    (before : Option ℕ) (r : ℕ) (buf : Bytes) (capital_sequence : Bool)
    → All Fits buf
    → All Fits (convert_one before r (buf, capital_sequence)).0
unfolding convert_one
convert_one-Fits before r buf capital_sequence fits = elim (Bool-cases (is_upper r)) [
  | inl upper ↦ rw upper (
      All-append Fits (buf ++ separator_unless capital) ((r - b'A' + b'a') ∷ [])
        (All-append Fits buf (separator_unless capital) fits (separator_unless-Fits capital))
        (letter-Fits r upper, tt))
  | inr other ↦ rw other (elim (Bool-cases (is_lower_alpha_num r)) [
    | inl word ↦ rw word (All-append Fits closed (r ∷ []) closed-Fits (inr word, tt))
    | inr no_word ↦ rw no_word (All-append Fits closed (b'_' ∷ []) closed-Fits (inl refl, tt))
  ])
]
  where
    capital : Bool
    capital = capital_sequence || not (is_empty buf) && is_upper_before before

    closed : Bytes
    closed = buf ++ separator_unless (not capital_sequence)

    closed-Fits : All Fits (buf ++ separator_unless (not capital_sequence))
    closed-Fits =
        All-append Fits buf (separator_unless (not capital_sequence)) fits
          (separator_unless-Fits (not capital_sequence))

convert-Fits :
    (before : Option ℕ) (s : Bytes) (state : Bytes × Bool)
    → All Fits state.0
    → All Fits (convert before s state)
unfolding convert
convert-Fits before [] state fits = fits
convert-Fits before (r ∷ s) state fits =
    convert-Fits (some r) s (convert_one before r state)
      (convert_one-Fits before r state.0 state.1 fits)

-- The first code point, if there is one, is no separator.
abbrev StartsWell : Bytes → Type 0
StartsWell [] = Unit
StartsWell (c ∷ s) = (c == b'_') ≡ false

trim_left-Fits : (s : Bytes) → All Fits s → All Fits (trim_left s) × StartsWell (trim_left s)
unfolding trim_left
trim_left-Fits [] fits = (tt, tt)
trim_left-Fits (c ∷ s) (fit, fits) = elim (Bool-cases (c == b'_')) [
  | inl separator ↦ rw separator (trim_left-Fits s fits)
  | inr word ↦ rw word ((fit, fits), word)
]

keep-Fits :
    (c : ℕ) (rest : Bytes)
    → Fits c
    → All Fits rest × EndsWell rest
    → All Fits (if c == b'_' && is_empty rest then [] else c ∷ rest)
      × EndsWell (if c == b'_' && is_empty rest then [] else c ∷ rest)
unfolding is_empty
keep-Fits c [] (inl e) h = rw e (tt, tt)
keep-Fits c [] (inr word) h = rw (word_ne_separator c word) ((inr word, tt), word)
keep-Fits c (d ∷ rest) fit h = elim (Bool-cases (c == b'_')) [
  | inl separator ↦ rw separator ((fit, h.0), h.1)
  | inr word ↦ rw word ((fit, h.0), h.1)
]

trim_right-Fits : (s : Bytes) → All Fits s → All Fits (trim_right s) × EndsWell (trim_right s)
unfolding trim_right
trim_right-Fits [] fits = (tt, tt)
trim_right-Fits (c ∷ s) (fit, fits) = keep-Fits c (trim_right s) fit (trim_right-Fits s fits)

trim_right-StartsWell : (s : Bytes) → StartsWell s → StartsWell (trim_right s)
unfolding trim_right
trim_right-StartsWell [] h = tt
trim_right-StartsWell (c ∷ s) h = rw h h

normalize-IsSnake :
    (s : Bytes) → All Fits s × EndsWell s → StartsWell s → IsSnake (normalize false s)
normalize-IsSnake [] h starts = inl nothing_left
normalize-IsSnake (c ∷ s) ((inl e, fits), ends) starts =
    absurd (separator_starts (subst (λ r. (r == b'_') ≡ false) e starts))
  where
    separator_starts : (b'_' == b'_') ≢ false
    separator_starts h = cc h
normalize-IsSnake (c ∷ s) ((inr word, fits), ends) starts =
    inr (subst (λ t. Follows true t) same (normalize-Follows true c s (inr word, fits) ends))
  where
    same : normalize true (c ∷ s) ≡ normalize false (c ∷ s)
    same = normalize-word true c s word ∙ sym (normalize-word false c s word)

pub to_snake_case-IsSnake : (name : Bytes) → IsSnake (to_snake_case name)
unfolding to_snake_case
to_snake_case-IsSnake name =
    let written = convert none name ([], false) in
    let left = trim_left-Fits written (convert-Fits none name ([], false) tt) in
    normalize-IsSnake (trim_right (trim_left written))
      (trim_right-Fits (trim_left written) (left.0))
      (trim_right-StartsWell (trim_left written) (left.1))
