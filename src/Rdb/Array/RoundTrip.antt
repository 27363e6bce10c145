-- ===== src/Rdb/Array/RoundTrip.antt =====
-- Reading back what `StringArray.Value` of internal/rdb/array.go writes.
use native.Mathlib.Nat.{mod_self}
use issue.Base.{
  ℕ, zero, suc, ◌+◌, ◌%◌, ◌<◌, ◌≡◌, refl, ap, ◌∙◌, false, List, [], ◌∷◌, ◌++◌, map, append_assoc,
  append-nil, Bytes, codes, length, length-append, length-map, has_prefix, Option, none, some, ok,
  ◌>>=◌, arith,
}
use issue.Rdb.Array.{
  Parse, open_loop, change_at, quoted, take_quoted, element, count_at, behind_loop, elements,
  check_dims, finish_array, behind_open, parse_array, scan_linear_array,
}
use issue.Rdb.Array.Strings.{
  StringArray, all_strings, store_elems, scan_bytes, scan, escaped, append_array_quoted_bytes,
  append_all, value,
}

quoted-escaped :
    (v rest elem : Bytes) → quoted (escaped v ++ b'"' ∷ rest) false elem ≡ some (elem ++ v, rest)
unfolding quoted escaped
quoted-escaped [] rest elem = rw (append-nil elem) refl
quoted-escaped (c ∷ v) rest elem =
    let further = quoted-escaped v rest (elem ++ c ∷ []) in
    ground (arith, further, append_assoc elem (c ∷ []) v)

-- The elements behind the first one, and the closing brace.
listed : List Bytes → Bytes
listed [] = b'}' ∷ []
listed (v ∷ vs) = b',' ∷ b'"' ∷ escaped v ++ b'"' ∷ listed vs

quoted_text-append :
    (b t rest : Bytes)
    → ((b ++ b',' ∷ []) ++ (b'"' ∷ (t ++ b'"' ∷ []))) ++ rest
      ≡ b ++ (b',' ∷ b'"' ∷ (t ++ b'"' ∷ rest))
quoted_text-append b t rest = simp append_assoc

append_all-listed : (b : Bytes) (vs : List Bytes) → append_all b vs ++ b'}' ∷ [] ≡ b ++ listed vs
unfolding append_all append_array_quoted_bytes listed
append_all-listed b [] = refl
append_all-listed b (v ∷ vs) =
    append_all-listed (append_array_quoted_bytes (b ++ b',' ∷ []) v) vs
    ∙ quoted_text-append b (escaped v) (listed vs)

-- What is left in front of an element.
front : Bytes → List Bytes → Bytes
front v vs = b'"' ∷ escaped v ++ b'"' ∷ listed vs

abbrev at_front : ℕ → List (Option Bytes) → Bytes → List Bytes → Parse
at_front n before v vs = record { rest = front v vs; depth = 1; dims = n ∷ []; elems = before }

abbrev at_end : ℕ → List (Option Bytes) → Parse
at_end n elems = record { rest = []; depth = 0; dims = n ∷ []; elems = elems }

element-front :
    (total n : ℕ) (before : List (Option Bytes)) (v : Bytes) (vs : List Bytes)
    → element (codes ",") total (front v vs) 1 (n ∷ []) before
      ≡ ok (record { rest = listed vs; depth = 1; dims = n ∷ []; elems = before ++ some v ∷ [] })
unfolding element front take_quoted
element-front total n before v vs = rw (quoted-escaped v (listed vs) []) refl

elements-front :
    (fuel total n : ℕ) (before : List (Option Bytes)) (v : Bytes) (vs : List Bytes)
    → length vs < fuel
    → elements fuel (codes ",") total (at_front n before v vs)
      ≡ ok (at_end (suc n + length vs) (before ++ some v ∷ map some vs))
unfolding elements behind_loop listed front count_at change_at has_prefix
elements-front zero total n before v vs h = absurd (omega (arith, h))
elements-front (suc fuel) total n before v [] h =
    let count : suc n ≡ suc n + 0 = omega arith in
    rw (element-front total n before v []) (ap (λ m. ok (at_end m (before ++ some v ∷ []))) count)
elements-front (suc fuel) total n before v (w ∷ vs) h =
    let count : suc (suc n) + length vs ≡ suc n + suc (length vs) = omega arith in
    let read : List (Option Bytes) = some w ∷ map some vs in
    rw (element-front total n before v (w ∷ vs)) (
      elements-front fuel total (suc n) (before ++ some v ∷ []) w vs (omega (arith, h))
      ∙ (ap (λ m. ok (at_end m ((before ++ some v ∷ []) ++ read))) count
          ∙ ap (λ es. ok (at_end (suc n + suc (length vs)) es))
              (append_assoc before (some v ∷ []) read)))

remainder_self : (n : ℕ) → suc n % suc n ≡ 0
remainder_self n = mod_self (suc n)

finish_array-linear :
    (total m : ℕ) (elems : List (Option Bytes))
    → length elems ≡ suc m
    → finish_array total 0 (suc m ∷ []) elems ≡ ok (suc m ∷ [], elems)
unfolding finish_array check_dims
finish_array-linear total m elems h = rw (h, remainder_self m) refl

length-listed : (vs : List Bytes) → length vs < length (listed vs)
unfolding listed
length-listed [] = omega arith
length-listed (v ∷ vs) =
    omega (arith, length-listed vs, length-append (escaped v) (b'"' ∷ listed vs))

length-front : (v : Bytes) (vs : List Bytes) → length vs < length (front v vs)
unfolding front
length-front v vs = omega (arith, length-listed vs, length-append (escaped v) (b'"' ∷ listed vs))

parse_array-front :
    (v : Bytes) (vs : List Bytes)
    → parse_array (b'{' ∷ front v vs) (codes ",") ≡ ok (suc (length vs) ∷ [], some v ∷ map some vs)
unfolding parse_array open_loop behind_open front
parse_array-front v vs =
    let total : ℕ = suc (length (front v vs)) in
    let enough : length vs < suc total = omega (arith, length-front v vs) in
    let one_more : 1 + length vs ≡ suc (length vs) = omega arith in
    let counted : length (some v ∷ map some vs) ≡ suc (length vs) = ap suc (length-map some vs) in
    ap (λ r. r >>= λ st. finish_array total st.depth st.dims st.elems)
      (elements-front (suc total) total 0 [] v vs enough)
    ∙ (ap (λ m. finish_array total 0 (m ∷ []) (some v ∷ map some vs)) one_more
        ∙ finish_array-linear total (length vs) (some v ∷ map some vs) counted)

all_strings-map : (i : ℕ) (vs : List Bytes) → all_strings i (map some vs) ≡ ok vs
unfolding all_strings
all_strings-map i [] = refl
all_strings-map i (v ∷ vs) = rw (all_strings-map (i + 1) vs) refl

store_elems-strings :
    (before : StringArray) (v : Bytes) (vs : List Bytes)
    → store_elems before (some v ∷ map some vs) ≡ ok (some (v ∷ vs))
unfolding store_elems all_strings
store_elems-strings none v vs = rw (all_strings-map 1 vs) refl
store_elems-strings (some a) v vs = rw (all_strings-map 1 vs) refl

scan_bytes-front :
    (before : StringArray) (v : Bytes) (vs : List Bytes)
    → scan_bytes before (b'{' ∷ front v vs) ≡ ok (some (v ∷ vs))
unfolding scan_bytes scan_linear_array
scan_bytes-front before v vs = rw (parse_array-front v vs) (store_elems-strings before v vs)

-- `Scan` reads back every array that `Value` writes, whatever was in the array before: the nil array,
-- the empty one, and strings with any bytes, quotes, backslashes, commas, braces and NULL among them.
pub scan-value : (before array : StringArray) → scan before (value array) ≡ ok array
unfolding scan value scan_bytes scan_linear_array append_array_quoted_bytes front
scan-value before none = refl
scan-value none (some []) = refl
scan-value (some a) (some []) = refl
scan-value before (some (v ∷ vs)) =
    let written : append_all (append_array_quoted_bytes (b'{' ∷ []) v) vs ++ b'}' ∷ []
        ≡ b'{' ∷ front v vs =
      append_all-listed (append_array_quoted_bytes (b'{' ∷ []) v) vs
      ∙ ap (λ t. b'{' ∷ b'"' ∷ t) (append_assoc (escaped v) (b'"' ∷ []) (listed vs)) in
    ap (scan_bytes before) written ∙ scan_bytes-front before v vs
