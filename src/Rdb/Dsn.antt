-- ===== src/Rdb/Dsn.antt =====
-- The parser of connection options of internal/rdb/internal/driver/dsn.go. A string is its code
-- points; what unicode.IsSpace knows is a parameter. A scanner is what is left of the string.
pub mod RoundTrip
pub mod Ending
use issue.Base.{
  ℕ, zero, suc, ◌+◌, Bool, true, false, not, ◌||◌, ◌&&◌, List, [], ◌∷◌, ◌++◌, Bytes, codes, Option,
  none, some, ◌==◌, length, Result, ok, fail, panic, ◌>>=◌, if◌then◌else◌,
}
use issue.Base.Table.{Table, insert, lookup}

-- The errors of parseOpts.
pub data DsnError : Type 0 where
  missing_equals : Bytes → DsnError
  missing_character unterminated : DsnError

abbrev pub Parsed {ℓ} : Type ℓ → Type ℓ
Parsed A = Result DsnError A

module _ (is_space : ℕ → Bool) where
  -- scanner.SkipSpaces
  unfoldable pub skip_spaces : Bytes → Option (ℕ × Bytes)
  skip_spaces [] = none
  skip_spaces (r ∷ s) = if is_space r then skip_spaces s else some (r, s)

  -- The key, the code point it ends at, if it does not end the string, and what is behind that.
  unfoldable pub scan_key : Bytes → ℕ → Bytes → Bytes × Option ℕ × Bytes
  scan_key key r [] =
      if is_space r || r == b'=' then (key, some r, []) else (key ++ r ∷ [], none, [])
  scan_key key r (c ∷ s) =
      let further = scan_key (key ++ r ∷ []) c s in
      if is_space r || r == b'=' then (key, some r, c ∷ s) else further

  -- The `=` behind the key: if the key did not end there, spaces are skipped.
  unfoldable pub find_equals : Option ℕ → Bytes → Option (ℕ × Bytes)
  unfolding skip_spaces
  find_equals none s = none
  find_equals (some r) s = if r == b'=' then some (r, s) else skip_spaces s

  unfoldable pub stops : ℕ → Bool
  stops r = is_space r || r == b';'

  -- The value without quotes that begins with `r`, and what is behind the code point that ends it.
  unfoldable pub scan_value : Bytes → ℕ → Bytes → Parsed (Bytes × Bytes)
  unfolding stops
  scan_value val r [] =
      if stops r
      then ok (val, [])
      else if r == b'\\'
      then fail missing_character
      else ok (val ++ r ∷ [], [])
  scan_value val r (c ∷ []) =
      let further = scan_value (val ++ r ∷ []) c [] in
      if stops r then ok (val, c ∷ []) else if r == b'\\' then ok (val ++ c ∷ [], []) else further
  scan_value val r (c ∷ d ∷ s) =
      let escaped = scan_value (val ++ c ∷ []) d s in
      let further = scan_value (val ++ r ∷ []) c (d ∷ s) in
      if stops r then ok (val, c ∷ d ∷ s) else if r == b'\\' then escaped else further

-- The value behind a quote, and what is behind the quote that ends it.
unfoldable pub scan_quoted : Bytes → Bytes → Parsed (Bytes × Bytes)
scan_quoted val [] = fail unterminated
scan_quoted val (c ∷ []) = if c == b'\'' then ok (val, []) else fail unterminated
scan_quoted val (c ∷ d ∷ s) =
    let escaped = scan_quoted (val ++ d ∷ []) s in
    let further = scan_quoted (val ++ c ∷ []) (d ∷ s) in
    if c == b'\'' then ok (val, d ∷ s) else if c == b'\\' then escaped else further

module _ (is_space : ℕ → Bool) where
  -- The value that begins behind the spaces; at the end of the string it is empty.
  unfoldable pub value_from : Option (ℕ × Bytes) → Parsed (Bytes × Bytes)
  unfolding scan_value scan_quoted
  value_from none = ok ([], [])
  value_from (some (r, s)) = if r == b'\'' then scan_quoted [] s else scan_value is_space [] r s

  unfoldable pub after_key : Bytes → Option (ℕ × Bytes) → Parsed (Bytes × Bytes)
  unfolding value_from skip_spaces
  after_key key none = fail (missing_equals key)
  after_key key (some (r, s)) =
      if r == b'=' then value_from (skip_spaces is_space s) else fail (missing_equals key)

  -- One round of the loop, at the first code point of a key: the option, and what is behind it.
  unfoldable pub scan_option : ℕ → Bytes → Parsed ((Bytes × Bytes) × Bytes)
  unfolding scan_key find_equals after_key
  scan_option r s =
      let (key, stop, rest) = scan_key is_space [] r s in
      after_key key (find_equals is_space stop rest) >>= λ found. ok ((key, found.0), found.1)

  -- The loop of parseOpts, on fuel; it panics where the fuel runs out.
  unfoldable pub parse_from : ℕ → Bytes → Table Bytes → Parsed (Table Bytes)
  unfolding skip_spaces scan_option insert
  parse_from zero s o = panic
  parse_from (suc fuel) s o = elim (skip_spaces is_space s) [
    | none ↦ ok o
    | some (r, rest) ↦
        scan_option r rest >>= λ found. parse_from fuel (found.1) (insert (found.0).0 (found.0).1 o)
  ]

  -- parseOpts; every option takes one code point at least.
  unfoldable pub parse_opts : Bytes → Table Bytes → Parsed (Table Bytes)
  unfolding parse_from
  parse_opts name o = parse_from (suc (length name)) name o

-- v[key] of a Go map of strings
unfoldable pub value_of : Bytes → Table Bytes → Bytes
unfolding lookup
value_of key v = elim (lookup key v) [ none ↦ [] | some value ↦ value ]

unfoldable pub first_of : Bytes → Bytes → Bytes
first_of [] other = other
first_of (c ∷ s) other = c ∷ s

unfoldable pub with_port : Bytes → Bytes → Bytes
with_port host [] = host
with_port host (c ∷ port) = host ++ b':' ∷ c ∷ port

-- The host, the database and the user of parseDSN, of the values that it found.
unfoldable pub from_values : Table Bytes → Bytes × Bytes × Bytes
unfolding value_of first_of with_port
from_values v = (
  with_port (first_of (value_of (codes "host") v) (value_of (codes "server") v))
      (value_of (codes "port") v),
  value_of (codes "database") v,
  first_of (value_of (codes "user") v) (value_of (codes "user id") v),
)

-- What parseDSN goes by: the values of the URL, else those of the options, else those of a query, of
-- which url.ParseQuery may find none.
unfoldable pub values_of :
    Option (Table Bytes) → Parsed (Table Bytes) → Option (Table Bytes) → Table Bytes
values_of (some v) options query = v
values_of none (ok v) query = v
values_of none (fail err) (some v) = v
values_of none (fail err) none = []
values_of none panic query = []

-- parseDSN; what net/url finds is given.
unfoldable pub parse_dsn :
    (ℕ → Bool) → Option (Table Bytes) → Option (Table Bytes) → Bytes → Bytes × Bytes × Bytes
unfolding parse_opts values_of from_values
parse_dsn is_space url query dsn = from_values (values_of url (parse_opts is_space dsn []) query)
