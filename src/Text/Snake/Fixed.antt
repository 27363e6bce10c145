-- ===== src/Text/Snake/Fixed.antt =====
-- toSnakeCase of internal/logfmt/logfmt.go leaves names in snake case alone.
use issue.Base.{
  ◌≡◌, refl, ◌∙◌, sym, ap, subst, inl, inr, ℕ, Bool, true, false, [], ◌∷◌, ◌++◌, append_assoc,
  append-nil, Bytes, Option, none, some, All, arith,
}
use issue.Text.Snake.{
  is_upper, is_lower_alpha_num, is_empty, separator_unless, convert_one, convert, trim_left,
  trim_right, normalize, to_snake_case,
}
use issue.Text.Snake.Shape.{
  nothing_left, Follows, IsSnake, Fits, normalize-word, normalize-separator, word_ne_separator,
  to_snake_case-IsSnake,
}

word-small : (c : ℕ) → is_lower_alpha_num c ≡ true → is_upper c ≡ false
unfolding is_lower_alpha_num is_upper
word-small c h = ground arith

separator-small : (is_upper b'_' ≡ false) × (is_lower_alpha_num b'_' ≡ false)
unfolding is_lower_alpha_num is_upper
separator-small = (refl, refl)

convert_one-separator :
    (before : Option ℕ) (buf : Bytes)
    → convert_one before b'_' (buf, false) ≡ (buf ++ b'_' ∷ [], false)
unfolding convert_one separator_unless is_upper is_lower_alpha_num
convert_one-separator before buf = ap (λ b. (b ++ b'_' ∷ [], false)) (append-nil buf)

convert_one-Fixed :
    (before : Option ℕ) (c : ℕ) (buf : Bytes)
    → Fits c
    → convert_one before c (buf, false) ≡ (buf ++ c ∷ [], false)
unfolding convert_one separator_unless
convert_one-Fixed before c buf (inr word) =
    rw (word-small c word, word) (ap (λ b. (b ++ c ∷ [], false)) (append-nil buf))
convert_one-Fixed before c buf (inl e) =
    subst (λ r. convert_one before r (buf, false) ≡ (buf ++ r ∷ [], false)) (sym e)
      (convert_one-separator before buf)

convert-Fixed :
    (before : Option ℕ) (s buf : Bytes) → All Fits s → convert before s (buf, false) ≡ buf ++ s
unfolding convert
convert-Fixed before [] buf fits = sym (append-nil buf)
convert-Fixed before (c ∷ s) buf (fit, fits) =
    ap (λ state. convert (some c) s state) (convert_one-Fixed before c buf fit)
    ∙ convert-Fixed (some c) s (buf ++ c ∷ []) fits
    ∙ append_assoc buf (c ∷ []) s

Follows-Fits : (separated : Bool) (s : Bytes) → Follows separated s → All Fits s
Follows-Fits true [] h = tt
Follows-Fits false [] h = tt
Follows-Fits true (c ∷ s) (word, h) = (inr word, Follows-Fits false s h)
Follows-Fits false (c ∷ s) (inl (e, h)) = (inl e, Follows-Fits true s h)
Follows-Fits false (c ∷ s) (inr (word, h)) = (inr word, Follows-Fits false s h)

trim_left-Fixed : (s : Bytes) → Follows true s → trim_left s ≡ s
unfolding trim_left
trim_left-Fixed [] h = refl
trim_left-Fixed (c ∷ s) (word, h) = rw (word_ne_separator c word) refl

trim_right-Fixed : (separated : Bool) (s : Bytes) → Follows separated s → trim_right s ≡ s
unfolding trim_right is_empty
trim_right-Fixed true [] h = refl
trim_right-Fixed false [] h = refl
trim_right-Fixed true (c ∷ s) (word, h) =
    rw (trim_right-Fixed false s h, word_ne_separator c word) refl
trim_right-Fixed false (c ∷ s) (inr (word, h)) =
    rw (trim_right-Fixed false s h, word_ne_separator c word) refl
trim_right-Fixed false (c ∷ []) (inl (e, h)) = absurd h
trim_right-Fixed false (c ∷ d ∷ s) (inl (e, h)) =
    rw (trim_right-Fixed true (d ∷ s) h) (ground arith)

normalize-Fixed : (separated : Bool) (s : Bytes) → Follows separated s → normalize separated s ≡ s
normalize-Fixed true [] h = absurd h
normalize-Fixed false [] h = nothing_left
normalize-Fixed true (c ∷ s) (word, h) =
    normalize-word true c s word ∙ ap (λ t. c ∷ t) (normalize-Fixed false s h)
normalize-Fixed false (c ∷ s) (inr (word, h)) =
    normalize-word false c s word ∙ ap (λ t. c ∷ t) (normalize-Fixed false s h)
normalize-Fixed false (c ∷ s) (inl (e, h)) =
    subst (λ r. normalize false (r ∷ s) ≡ r ∷ s) (sym e)
      (normalize-separator s ∙ ap (λ t. b'_' ∷ t) (normalize-Fixed true s h))

Follows-start : (s : Bytes) → Follows true s → Follows false s
Follows-start [] h = absurd h
Follows-start (c ∷ s) h = inr h

fixed : (s : Bytes) → IsSnake s → to_snake_case s ≡ s
unfolding to_snake_case convert trim_left trim_right normalize
fixed s (inl e) = subst (λ t. to_snake_case t ≡ t) (sym e) refl
fixed s (inr h) =
    ap (λ t. normalize false (trim_right (trim_left t)))
      (convert-Fixed none s [] (Follows-Fits true s h))
    ∙ ap (λ t. normalize false (trim_right t)) (trim_left-Fixed s h)
    ∙ ap (λ t. normalize false t) (trim_right-Fixed true s h)
    ∙ normalize-Fixed false s (Follows-start s h)

-- Whatever the name, toSnakeCase returns nothing, or words of small letters and digits with one
-- separator between two of them, and none at the start or the end; and it leaves what it returned
-- alone, so that to convert a name twice is to convert it once.
pub to_snake_case-Fixed :
    (name : Bytes)
    → IsSnake (to_snake_case name) × (to_snake_case (to_snake_case name) ≡ to_snake_case name)
to_snake_case-Fixed name =
    (to_snake_case-IsSnake name, fixed (to_snake_case name) (to_snake_case-IsSnake name))
