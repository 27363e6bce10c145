-- ===== src/RateLimiter/Parse.antt =====
-- `newPattern` of internal/resttooling/ratelimiter/v2/pattern.go. Each round of its loop takes at
-- least the slash from the path, so the length of the path is fuel enough; `out_of_fuel` is no error
-- of the program.
pub mod Loop
pub mod WellFormed
use issue.Base.{
  ℕ, zero, suc, ◌+◌, ◌-◌, Bool, true, false, not, ◌&&◌, ◌||◌, List, [], ◌∷◌, ◌++◌, Bytes, codes,
  ◌=ᵇ◌, ◌==◌, leb, length, take, drop, has_byte, member, before, from, Option, none, some, Result,
  ok, fail, panic, ◌>>=◌, if◌then◌else◌,
}
use issue.RateLimiter.Pattern.{Segment, Pattern}

pub data PatternError : Type 0 where
  empty_pattern missing_slash bad_start bad_end multi_not_last empty_identifier : PatternError
  invalid_method duplicate_name : Bytes → PatternError
  out_of_fuel : PatternError

-- strings.CutSuffix
unfoldable pub cut_suffix : Bytes → Bytes → Bytes × Bool
cut_suffix s suffix =
    let n = length s - length suffix in
    if leb (length suffix) (length s) && drop n s =ᵇ suffix then (take n s, true) else (s, false)

unfoldable pub last_byte : Bytes → Option ℕ
last_byte [] = none
last_byte (c ∷ []) = some c
last_byte (c ∷ d ∷ s) = last_byte (d ∷ s)

unfoldable pub is_byte : Option ℕ → ℕ → Bool
is_byte none b = false
is_byte (some c) b = c == b

unfoldable pub starts_with : ℕ → Bytes → Bool
starts_with b [] = false
starts_with b (c ∷ s) = c == b

abbrev pub methods : List Bytes
methods =
    codes "GET" ∷ codes "POST" ∷ codes "PUT" ∷ codes "DELETE" ∷ codes "PATCH" ∷ codes "OPTIONS" ∷ []

unfoldable pub validate_method : Bytes → Result PatternError (Unit {0})
unfolding member
validate_method method = if member method methods then ok tt else fail (invalid_method method)

-- The name between the braces, once it is known that they are there: `seg[1 : len(seg)-1]`.
unfoldable pub inner : Bytes → Bytes
inner seg = take (length seg - 2) (drop 1 seg)

-- An identifier segment; `rest` is the path behind it.
unfoldable pub identifier_segment : Bytes → Bytes → List Bytes → Result PatternError Segment
unfolding cut_suffix last_byte is_byte starts_with inner
identifier_segment seg rest seen =
    if not (starts_with b'{' seg)
    then fail bad_start
    else if not (is_byte (last_byte seg) b'}')
    then fail bad_end
    else (let (name, multi) = cut_suffix (inner seg) (codes "...") in
        if multi && not (rest =ᵇ [])
        then fail multi_not_last
        else if name =ᵇ []
        then fail empty_identifier
        else if member name seen
        then fail (duplicate_name name)
        else ok (record { s = name; identifier = true; multi = multi }))

abbrev pub literal_segment : Bytes → Segment
literal_segment seg = record { s = seg; identifier = false; multi = false }

-- The loop over the path, with the names and the segments so far.
unfoldable pub segments_loop :
    ℕ → Bytes → List Bytes → List Segment → Result PatternError (List Segment)
segments_loop fuel [] seen acc = ok acc
segments_loop zero (c ∷ path) seen acc = fail out_of_fuel
segments_loop (suc fuel) (c ∷ []) seen acc = ok acc
segments_loop (suc fuel) (c ∷ d ∷ path) seen acc =
    let seg = before b'/' (d ∷ path) in
    let rest = from b'/' (d ∷ path) in
    let plain = segments_loop fuel rest seen (acc ++ literal_segment seg ∷ []) in
    let named = (do
      found ← identifier_segment seg rest seen
      segments_loop fuel rest (found.s ∷ seen) (acc ++ found ∷ [])) in
    if has_byte b'{' seg then named else plain

-- The pattern, with its method and its path taken apart.
unfoldable pub parse_path : Bytes → Bytes → Bytes → Result PatternError Pattern
unfolding segments_loop
parse_path p method path = if not (has_byte b'/' path) then fail missing_slash else do
  segments ← segments_loop (length path) path [] []
  ok (record { pattern = p; method = method; segments = segments })

-- What stands behind the first space.
unfoldable pub after_space : Bytes → Bytes
after_space p = drop 1 (from b' ' p)

unfoldable pub new_pattern : Bytes → Result PatternError Pattern
unfolding parse_path validate_method after_space
new_pattern p =
    if p =ᵇ []
    then fail empty_pattern
    else if has_byte b' ' p
    then (do valid ← validate_method (before b' ' p); parse_path p (before b' ' p) (after_space p))
    else parse_path p [] p
