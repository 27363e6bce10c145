-- ===== src/Rdb/Array/Safety.antt =====
-- `parseArray` of internal/rdb/array.go on any input: its indices, its remainder and its loops.
use issue.Base.{
  ℕ, zero, suc, ◌+◌, ◌-◌, ◌≤◌, ◌<◌, ◌≡◌, ◌≢◌, refl, subst, inl, inr, Bool, true, false, ◌&&◌, List,
  [], ◌∷◌, Bytes, ◌==◌, ltb, ltb→lt, length, drop, replicate, has_prefix, Option, Result, ok, fail,
  panic, ◌>>=◌, arith, Bool-cases,
}
use issue.Rdb.Array.{
  ArrayError, out_of_fuel, Parse, open_loop, element, Turn, finished, again, count_at, behind_loop,
  elements, close_loop, finish_array, behind_open, parse_array,
}
use issue.Rdb.Array.Settles.{Settles, Settles-bind, Settles-map, if-Settles}
use issue.Rdb.Array.Dimensions.{
  Complete, count_at-Complete, finish_array-Settles, replicate-Complete, finish_array-empty,
}
use issue.Rdb.Array.Elements.{Within, element-Within}

-- A round leaves fewer bytes, or comes to the end.
abbrev Turns : ℕ → Turn → Type 0
Turns n (finished st) = Complete st.depth st.dims
Turns n (again st) = (length st.rest < n) × Complete st.depth st.dims

Turns-suc : (n : ℕ) (turn : Turn) → Turns n turn → Turns (suc n) turn
Turns-suc n (finished st) k = k
Turns-suc n (again st) (k, c) = (omega (arith, k), c)

length-drop_le : (n : ℕ) (xs : Bytes) → length (drop n xs) ≤ length xs
length-drop_le zero xs = omega arith
length-drop_le (suc n) [] = omega arith
length-drop_le (suc n) (x ∷ xs) = omega (arith, length-drop_le n xs)

and_right : (p q : Bool) → (p && q) ≡ true → q ≡ true
and_right true q h = h
and_right false q h = cc h

behind_loop-Turns :
    (b : ℕ) (del : Bytes) (total : ℕ) (src : Bytes) (depth : ℕ) (dims : List ℕ)
    (elems : List (Option Bytes))
    → Complete depth dims
    → Settles (Turns (length src)) (behind_loop (b ∷ del) total src depth dims elems)
unfolding behind_loop
behind_loop-Turns b del total [] depth dims elems c = c
behind_loop-Turns b del total (x ∷ src) depth dims elems c =
    let left_over : Bytes = drop (length (b ∷ del)) (x ∷ src) in
    let kept : List ℕ → Type 0 = λ ds. Complete depth ds × Complete (depth - 1) ds in
    elim (Bool-cases (has_prefix (x ∷ src) (b ∷ del) && ltb 0 depth)) [
      | inl separator ↦ rw separator (
          Settles-bind kept (Turns (length (x ∷ src))) (count_at depth dims)
            (λ ds.
              ok (again (record { rest = left_over; depth = depth; dims = ds; elems = elems })))
            (count_at-Complete depth dims
              (ltb→lt 0 depth (and_right (has_prefix (x ∷ src) (b ∷ del)) (ltb 0 depth) separator))
              c)
            (λ ds (k, _). (omega (arith, length-drop_le (length del) src), k)))
      | inr no_separator ↦ elim (Bool-cases (x == b'}' && ltb 0 depth)) [
        | inl closing ↦
            rw (no_separator, closing)
              (Settles-bind kept (Turns (length (x ∷ src))) (count_at depth dims)
                (λ ds. behind_loop (b ∷ del) total src (depth - 1) ds elems)
                (count_at-Complete depth dims
                  (ltb→lt 0 depth (and_right (x == b'}') (ltb 0 depth) closing)) c)
                (λ ds (_, k).
                  Settles-map (Turns (length src)) (Turns (length (x ∷ src)))
                    (behind_loop (b ∷ del) total src (depth - 1) ds elems) (Turns-suc (length src))
                    (behind_loop-Turns b del total src (depth - 1) ds elems k)))
        | inr neither ↦ rw (no_separator, neither) (λ e. cc e)
      ]
    ]

abbrev CompleteParse : Parse → Type 0
CompleteParse s = Complete s.depth s.dims

-- The end of a round of `elements`.
abbrev next_turn : (Parse → Result ArrayError Parse) → Turn → Result ArrayError Parse
next_turn go turn = elim turn [ finished s ↦ ok s | again s ↦ go s ]

next_turn-Complete :
    (go : Parse → Result ArrayError Parse) (n : ℕ)
    → ((s : Parse) → length s.rest < n → CompleteParse s → Settles CompleteParse (go s))
    → (turn : Turn) → Turns n turn
    → Settles CompleteParse (next_turn go turn)
next_turn-Complete go n h (finished s) k = k
next_turn-Complete go n h (again s) (k, c) = h s k c

elements-Complete :
    (b : ℕ) (del : Bytes) (fuel total : ℕ) (st : Parse)
    → length st.rest < fuel
    → Complete st.depth st.dims
    → Settles CompleteParse (elements fuel (b ∷ del) total st)
unfolding elements
elements-Complete b del zero total st h c = absurd (omega (arith, h))
elements-Complete b del (suc fuel) total st h c =
    Settles-bind (Within (length st.rest)) CompleteParse
      (element (b ∷ del) total st.rest st.depth st.dims st.elems)
      (λ s.
        behind_loop (b ∷ del) total s.rest s.depth s.dims s.elems
        >>= next_turn (elements fuel (b ∷ del) total))
      (element-Within (b ∷ del) total st.rest st.depth st.dims st.elems c)
      (λ s w.
        Settles-bind (Turns (length s.rest)) CompleteParse
          (behind_loop (b ∷ del) total s.rest s.depth s.dims s.elems)
          (next_turn (elements fuel (b ∷ del) total))
          (behind_loop-Turns b del total s.rest s.depth s.dims s.elems w.complete)
          (next_turn-Complete (elements fuel (b ∷ del) total) (length s.rest) (λ t shorter.
            elements-Complete b del fuel total t (omega (arith, h, w.left, shorter)))))

close_loop-Settles :
    (total : ℕ) (src : Bytes) (depth : ℕ) → Settles (λ _. Unit) (close_loop total src depth)
unfolding close_loop
close_loop-Settles total [] depth = tt
close_loop-Settles total (x ∷ src) depth = elim (Bool-cases (x == b'}' && ltb 0 depth)) [
  | inl closing ↦ rw closing (close_loop-Settles total src (depth - 1))
  | inr other ↦ rw other (λ e. cc e)
]

open_loop-length : (src : Bytes) (depth : ℕ) → length (open_loop src depth).0 ≤ length src
unfolding open_loop
open_loop-length [] depth = omega arith
open_loop-length (x ∷ src) depth = ground (arith, open_loop-length src (depth + 1))

behind_open-Settles :
    (b : ℕ) (del : Bytes) (total : ℕ) (opened : Bytes × ℕ × Bool)
    → length opened.0 ≤ total
    → Settles (λ _. Unit) (behind_open (b ∷ del) total opened)
unfolding behind_open
behind_open-Settles b del total (rest, depth, true) h =
    Settles-bind (λ _. Unit) (λ _. Unit) (close_loop total rest depth)
      (λ depth'. finish_array total depth' [] []) (close_loop-Settles total rest depth)
      (λ depth' k. finish_array-empty total depth')
behind_open-Settles b del total (rest, depth, false) h =
    let start : Parse = record {
      rest = rest;
      depth = depth;
      dims = replicate depth 0;
      elems = [];
    } in
    Settles-bind CompleteParse (λ _. Unit) (elements (suc total) (b ∷ del) total start)
      (λ st. finish_array total st.depth st.dims st.elems)
      (elements-Complete b del (suc total) total start (omega (arith, h))
        (replicate-Complete depth))
      (λ st c. finish_array-Settles total st.depth st.dims st.elems c)

parse_array-Settles :
    (src : Bytes) (b : ℕ) (del : Bytes) → Settles (λ _. Unit) (parse_array src (b ∷ del))
unfolding parse_array
parse_array-Settles [] b del = λ e. cc e
parse_array-Settles (x ∷ src) b del =
    if-Settles (x == b'{') (behind_open (b ∷ del) (length (x ∷ src)) (open_loop (x ∷ src) 0)) (
      behind_open-Settles b del (length (x ∷ src)) (open_loop (x ∷ src) 0)
        (open_loop-length (x ∷ src) 0))

-- With a delimiter of at least one byte, `parseArray` ends on any input, with a result or an error of
-- its own: it never indexes out of range, never takes a remainder by zero and never loops for ever.
pub parse_array_safe :
    (src : Bytes) (b : ℕ) (del : Bytes)
    → (parse_array src (b ∷ del) ≢ panic) × (parse_array src (b ∷ del) ≢ fail out_of_fuel)
parse_array_safe src b del =
    let settled = parse_array-Settles src b del in
    (λ e. subst (Settles (λ _. Unit)) e settled, λ e. subst (Settles (λ _. Unit)) e settled refl)
