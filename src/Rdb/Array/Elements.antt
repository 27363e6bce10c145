-- ===== src/Rdb/Array/Elements.antt =====
-- The loop `Element` of `parseArray` (internal/rdb/array.go).
use issue.Base.{
  ℕ, suc, ◌+◌, ◌≤◌, ◌<◌, inl, inr, Bool, true, false, ◌||◌, List, [], ◌∷◌, ◌++◌, Bytes, ◌=ᵇ◌, ◌==◌,
  length, has_prefix, Option, none, some, Result, ◌>>=◌, arith, Bool-cases,
}
use issue.Rdb.Array.{
  ArrayError, Parse, change_at, quoted, unquoted, take_quoted, unexpected_at, take_unquoted,
  element,
}
use issue.Rdb.Array.Settles.{Settles, Settles-bind, Settles-map}
use issue.Rdb.Array.Dimensions.{Complete, Changed, change_at-Changed, not_deepest, deeper}

-- The part is at most as long as `n`.
abbrev pub Part : ℕ → Option (Bytes × Bytes) → Type 0
Part n none = Unit
Part n (some (elem, rest)) = length rest ≤ n

pub Part-weaken : (o : Option (Bytes × Bytes)) (n : ℕ) → Part n o → Part (suc n) o
Part-weaken none n h = tt
Part-weaken (some (elem, rest)) n h = omega (arith, h)

pub quoted-Part :
    (src : Bytes) (escape : Bool) (elem : Bytes) → Part (length src) (quoted src escape elem)
unfolding quoted
quoted-Part [] escape elem = tt
quoted-Part (c ∷ src) true elem = Part-weaken _ _ (quoted-Part src false (elem ++ c ∷ []))
quoted-Part (c ∷ src) false elem =
    let escaped_lem = Part-weaken _ _ (quoted-Part src true elem) in
    let further_lem = Part-weaken _ _ (quoted-Part src false (elem ++ c ∷ [])) in
    elim (Bool-cases (c == b'\\')) [
      | inl yes_ ↦ rw yes_ escaped_lem
      | inr no_ ↦ elim (Bool-cases (c == b'"')) [
        | inl quote ↦ rw (no_, quote) (omega arith)
        | inr other ↦ rw (no_, other) further_lem
      ]
    ]

-- The part is not empty either.
abbrev pub Front : ℕ → Option (Bytes × Bytes) → Type 0
Front n none = Unit
Front n (some (elem, rest)) = (length rest ≤ n) × (0 < length rest)

pub Front-weaken : (o : Option (Bytes × Bytes)) (n : ℕ) → Front n o → Front (suc n) o
Front-weaken none n h = tt
Front-weaken (some (elem, rest)) n (h, k) = (omega (arith, h), k)

pub unquoted-Front : (del src elem : Bytes) → Front (length src) (unquoted del src elem)
unfolding unquoted
unquoted-Front del [] elem = tt
unquoted-Front del (c ∷ src) elem =
    let further_lem = Front-weaken _ _ (unquoted-Front del src (elem ++ c ∷ [])) in
    elim (Bool-cases (has_prefix (c ∷ src) del || c == b'}')) [
      | inl ends ↦ rw ends (omega arith, omega arith)
      | inr goes_on ↦ rw goes_on further_lem
    ]

-- At most `n` bytes are left, and the dimensions are complete.
pub record Within (n : ℕ) (st : Parse) : Type 0 where
  pub left : length st.rest ≤ n
  pub complete : Complete st.depth st.dims

pub take_quoted-Within :
    (n : ℕ) (st : Parse) (o : Option (Bytes × Bytes))
    → Complete st.depth st.dims
    → Part n o
    → Settles (Within n) (take_quoted st o)
unfolding take_quoted
take_quoted-Within n st none c h = record { left = omega arith; complete = c }
take_quoted-Within n st (some (elem, rest)) c h = record { left = h; complete = c }

pub take_unquoted-Within :
    (total n : ℕ) (st : Parse) (o : Option (Bytes × Bytes))
    → Complete st.depth st.dims
    → Front n o
    → Settles (Within n) (take_unquoted total st o)
unfolding take_unquoted unexpected_at
take_unquoted-Within total n st none c h = record { left = omega arith; complete = c }
take_unquoted-Within total n st (some (elem, [])) c (_, h) = absurd (omega (arith, h))
take_unquoted-Within total n st (some (elem, d ∷ rest)) c (h, k) = elim (Bool-cases (elem =ᵇ [])) [
  | inl nothing ↦ rw nothing (λ e. cc e)
  | inr something ↦ rw something (record { left = h; complete = c })
]

pub Within-weaken :
    (n : ℕ) (r : Result ArrayError Parse) → Settles (Within n) r → Settles (Within (suc n)) r
Within-weaken n r h =
    Settles-map (Within n) (Within (suc n)) r
      (λ st k. record { left = omega (arith, k.left); complete = k.complete }) h

pub element-Within :
    (del : Bytes) (total : ℕ) (src : Bytes) (depth : ℕ) (dims : List ℕ)
    (elems : List (Option Bytes))
    → Complete depth dims
    → Settles (Within (length src)) (element del total src depth dims elems)
unfolding element
element-Within del total [] depth dims elems c = record { left = omega arith; complete = c }
element-Within del total (x ∷ src) depth dims elems c =
    let here : Parse = record { rest = x ∷ src; depth = depth; dims = dims; elems = elems } in
    let nested : depth < length dims
        → Settles (Within (length (x ∷ src)))
            (change_at (λ _. 0) depth dims >>= λ ds. element del total src (depth + 1) ds elems) =
      λ room.
        Settles-bind (Changed (λ _. 0) depth dims) (Within (length (x ∷ src)))
          (change_at (λ _. 0) depth dims) (λ ds. element del total src (depth + 1) ds elems)
          (change_at-Changed (λ _. 0) depth dims room)
          (λ ds g.
            Within-weaken _ _ (
              element-Within del total src (depth + 1) ds elems (deeper depth dims ds room c g))) in
    elim (Bool-cases (x == b'{')) [
      | inl brace ↦ elim (Bool-cases (depth == length dims)) [
        | inl deepest ↦ rw (brace, deepest) (record { left = omega arith; complete = c })
        | inr shallow ↦
            rw (brace, shallow) (nested (not_deepest depth (length dims) c.within shallow))
      ]
      | inr no_brace ↦ elim (Bool-cases (x == b'"')) [
        | inl quote ↦
            rw (no_brace, quote)
              (take_quoted-Within (length (x ∷ src)) here (quoted src false []) c
                (Part-weaken _ _ (quoted-Part src false [])))
        | inr plain ↦
            rw (no_brace, plain)
              (take_unquoted-Within total (length (x ∷ src)) here (unquoted del (x ∷ src) []) c
                (unquoted-Front del (x ∷ src) []))
      ]
    ]
