-- ===== src/Rdb/Array.antt =====
-- `parseArray` of internal/rdb/array.go. The index `i` into `src` is what is left of
-- `src` from there on; an offset in an error is found from its length.
pub mod Strings
pub mod RoundTrip
pub mod Settles
pub mod Dimensions
pub mod Elements
pub mod Safety
use issue.Base.{
  ℕ, zero, suc, ◌+◌, ◌-◌, ◌%◌, Bool, true, false, not, ◌&&◌, ◌||◌, List, [], ◌∷◌, ◌++◌, map, Bytes,
  codes, ◌=ᵇ◌, ◌==◌, ltb, length, drop, replicate, has_prefix, Option, none, some, Result, ok, fail,
  panic, ◌>>=◌, if◌then◌else◌,
}

pub data ArrayError : Type 0 where
  expected_open : ArrayError
  expected_close : ℕ → ArrayError
  unexpected : ℕ → ℕ → ArrayError  -- the byte and its offset
  mismatched_dimensions : ArrayError
  not_linear : List ℕ → ArrayError
  nil_element : ℕ → ArrayError
  not_convertible : ArrayError
  out_of_fuel : ArrayError

-- What is left of `src`, and the variables of `parseArray`; a nil element is `none`.
pub record Parse : Type 0 where
  pub rest : Bytes
  pub depth : ℕ
  pub dims : List ℕ
  pub elems : List (Option Bytes)

-- The loop `Open`: the number of braces, and whether it goes to `Close`.
unfoldable pub open_loop : Bytes → ℕ → Bytes × ℕ × Bool
open_loop [] depth = ([], depth, false)
open_loop (c ∷ src) depth =
    let further = open_loop src (depth + 1) in
    if c == b'{'
    then further
    else if c == b'}'
    then (c ∷ src, depth, true)
    else (c ∷ src, depth, false)

-- `dims[i] = f(dims[i])`, where an index out of range panics.
unfoldable pub change_at : (ℕ → ℕ) → ℕ → List ℕ → Result ArrayError (List ℕ)
change_at f i [] = panic
change_at f zero (d ∷ dims) = ok (f d ∷ dims)
change_at f (suc i) (d ∷ dims) = do dims' ← change_at f i dims; ok (d ∷ dims')

-- The loop over a quoted element behind its first quote; `none` where `src` ends in it.
unfoldable pub quoted : Bytes → Bool → Bytes → Option (Bytes × Bytes)
quoted [] escape elem = none
quoted (c ∷ src) true elem = quoted src false (elem ++ c ∷ [])
quoted (c ∷ src) false elem =
    let escaped = quoted src true elem in
    let further = quoted src false (elem ++ c ∷ []) in
    if c == b'\\' then escaped else if c == b'"' then some (elem, src) else further

-- The loop over an element without quotes.
unfoldable pub unquoted : Bytes → Bytes → Bytes → Option (Bytes × Bytes)
unfolding has_prefix
unquoted del [] elem = none
unquoted del (c ∷ src) elem =
    let further = unquoted del src (elem ++ c ∷ []) in
    if has_prefix (c ∷ src) del || c == b'}' then some (elem, c ∷ src) else further

-- Behind a quoted element.
unfoldable pub take_quoted : Parse → Option (Bytes × Bytes) → Result ArrayError Parse
take_quoted st none = ok (record st { rest = [] })
take_quoted st (some (elem, rest)) =
    ok (record st { rest = rest; elems = st.elems ++ some elem ∷ [] })

unfoldable pub null_or : Bytes → Option Bytes
null_or elem = if elem =ᵇ codes "NULL" then none else some elem

-- The byte at the front of `rest` is not expected.
unfoldable pub unexpected_at : ℕ → Bytes → Result ArrayError Parse
unexpected_at total [] = panic
unexpected_at total (c ∷ rest) = fail (unexpected c (total - length (c ∷ rest)))

-- Behind an element without quotes.
unfoldable pub take_unquoted : ℕ → Parse → Option (Bytes × Bytes) → Result ArrayError Parse
unfolding null_or unexpected_at
take_unquoted total st none = ok (record st { rest = [] })
take_unquoted total st (some (elem, rest)) =
    if elem =ᵇ []
    then unexpected_at total rest
    else ok (record st { rest = rest; elems = st.elems ++ null_or elem ∷ [] })

-- The loop `Element`; `total` is the length of `src`.
unfoldable pub element :
    Bytes → ℕ → Bytes → ℕ → List ℕ → List (Option Bytes) → Result ArrayError Parse
unfolding change_at quoted unquoted take_quoted take_unquoted
element del total [] depth dims elems =
    ok (record { rest = []; depth = depth; dims = dims; elems = elems })
element del total (c ∷ src) depth dims elems =
    let here : Parse = record { rest = c ∷ src; depth = depth; dims = dims; elems = elems } in
    let nested = (do
      dims' ← change_at (λ _. 0) depth dims
      element del total src (depth + 1) dims' elems) in
    if c == b'{'
    then (if depth == length dims then ok here else nested)
    else if c == b'"'
    then take_quoted here (quoted src false [])
    else take_unquoted total here (unquoted del (c ∷ src) [])

-- How the loop behind `Element` ends: at the end of `src`, or by going back to `Element`.
pub data Turn : Type 0 where
  finished again : Parse → Turn

-- `dims[depth-1]++`, for a depth above 0.
unfoldable pub count_at : ℕ → List ℕ → Result ArrayError (List ℕ)
unfolding change_at
count_at depth dims = change_at suc (depth - 1) dims

unfoldable pub behind_loop :
    Bytes → ℕ → Bytes → ℕ → List ℕ → List (Option Bytes) → Result ArrayError Turn
unfolding count_at has_prefix
behind_loop del total [] depth dims elems =
    ok (finished (record { rest = []; depth = depth; dims = dims; elems = elems }))
behind_loop del total (c ∷ src) depth dims elems =
    let separated = (do
      dims' ← count_at depth dims
      ok (
          again (record {
            rest = drop (length del) (c ∷ src);
            depth = depth;
            dims = dims';
            elems = elems;
          }))) in
    let closed = (do
      dims' ← count_at depth dims
      behind_loop del total src (depth - 1) dims' elems) in
    if has_prefix (c ∷ src) del && ltb 0 depth
    then separated
    else if c == b'}' && ltb 0 depth
    then closed
    else fail (unexpected c (total - length (c ∷ src)))

-- The two loops together, on fuel: each round takes the delimiter at least.
unfoldable pub elements : ℕ → Bytes → ℕ → Parse → Result ArrayError Parse
unfolding element behind_loop
elements zero del total st = fail out_of_fuel
elements (suc fuel) del total st = do
  st' ← element del total st.rest st.depth st.dims st.elems
  turn ← behind_loop del total st'.rest st'.depth st'.dims st'.elems
  elim turn [ finished s ↦ ok s | again s ↦ elements fuel del total s ]

-- The loop `Close`, where it is reached by `goto`: the depth at the end.
unfoldable pub close_loop : ℕ → Bytes → ℕ → Result ArrayError ℕ
close_loop total [] depth = ok depth
close_loop total (c ∷ src) depth =
    let further = close_loop total src (depth - 1) in
    if c == b'}' && ltb 0 depth then further else fail (unexpected c (total - length (c ∷ src)))

-- `for _, d := range dims`; the remainder by 0 panics. The loop has no `break`, but its error is the
-- same each time.
unfoldable pub check_dims : ℕ → List ℕ → Result ArrayError (Unit {0})
check_dims n [] = ok tt
check_dims n (zero ∷ dims) = panic
check_dims n (suc d ∷ dims) = do
  rest ← check_dims n dims
  if n % suc d == 0 then ok tt else fail mismatched_dimensions

unfoldable pub finish_array :
    ℕ → ℕ → List ℕ → List (Option Bytes) → Result ArrayError (List ℕ × List (Option Bytes))
unfolding check_dims
finish_array total depth dims elems =
    if ltb 0 depth
    then fail (expected_close total)
    else do checked ← check_dims (length elems) dims; ok (dims, elems)

unfoldable pub behind_open :
    Bytes → ℕ → Bytes × ℕ × Bool → Result ArrayError (List ℕ × List (Option Bytes))
unfolding close_loop elements finish_array
behind_open del total (rest, depth, true) = do
  depth' ← close_loop total rest depth
  finish_array total depth' [] []
behind_open del total (rest, depth, false) = do
  st ←
      elements (suc total) del total
        (record { rest = rest; depth = depth; dims = replicate depth 0; elems = [] })
  finish_array total st.depth st.dims st.elems

-- `parseArray`
unfoldable pub parse_array : Bytes → Bytes → Result ArrayError (List ℕ × List (Option Bytes))
unfolding open_loop behind_open
parse_array [] del = fail expected_open
parse_array (c ∷ src) del =
    if c == b'{'
    then behind_open del (length (c ∷ src)) (open_loop (c ∷ src) 0)
    else fail expected_open

-- `scanLinearArray`
unfoldable pub scan_linear_array : Bytes → Bytes → Result ArrayError (List (Option Bytes))
unfolding parse_array
scan_linear_array src del = do
  (dims, elems) ← parse_array src del
  if ltb 1 (length dims) then fail (not_linear dims) else ok elems
