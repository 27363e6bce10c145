-- ===== src/Rdb/Array/Strings.antt =====
-- `StringArray` of internal/rdb/array.go: `Scan` and `Value`.
use issue.Base.{
  ℕ, ◌+◌, ◌||◌, List, [], ◌∷◌, ◌++◌, Bytes, codes, ◌==◌, Option, none, some, Result, ok, fail,
  ◌>>=◌, if◌then◌else◌,
}
use issue.Rdb.Array.{ArrayError, nil_element, not_convertible, scan_linear_array}

-- A `StringArray`; the nil slice is `none`.
abbrev pub StringArray : Type 0
StringArray = Option (List Bytes)

-- The loop of `scanBytes`.
unfoldable pub all_strings : ℕ → List (Option Bytes) → Result ArrayError (List Bytes)
all_strings i [] = ok []
all_strings i (none ∷ elems) = fail (nil_element i)
all_strings i (some v ∷ elems) = do vs ← all_strings (i + 1) elems; ok (v ∷ vs)

-- The end of `scanBytes`: an array that is there keeps its storage, where nothing was read.
unfoldable pub store_elems : StringArray → List (Option Bytes) → Result ArrayError StringArray
unfolding all_strings
store_elems (some a) [] = ok (some [])
store_elems a elems = do vs ← all_strings 0 elems; ok (some vs)

-- `scanBytes`; an error leaves the array as it was.
unfoldable pub scan_bytes : StringArray → Bytes → Result ArrayError StringArray
unfolding scan_linear_array store_elems
scan_bytes a src = do elems ← scan_linear_array src (codes ","); store_elems a elems

-- A value of a database driver.
pub data DriverValue : Type 0 where
  bytes_value string_value : Bytes → DriverValue
  nil_value other_value : DriverValue

-- `Scan`
unfoldable pub scan : StringArray → DriverValue → Result ArrayError StringArray
unfolding scan_bytes
scan a (bytes_value src) = scan_bytes a src
scan a (string_value src) = scan_bytes a src
scan a nil_value = ok none
scan a other_value = fail not_convertible

-- The loop of `appendArrayQuotedBytes`: a backslash before each quote and backslash. The pieces between
-- them, which the code copies whole, are copied byte by byte.
unfoldable pub escaped : Bytes → Bytes
escaped [] = []
escaped (c ∷ v) =
    let rest = escaped v in if c == b'"' || c == b'\\' then b'\\' ∷ c ∷ rest else c ∷ rest

-- `appendArrayQuotedBytes`
unfoldable pub append_array_quoted_bytes : Bytes → Bytes → Bytes
unfolding escaped
append_array_quoted_bytes b v = b ++ (b'"' ∷ (escaped v ++ b'"' ∷ []))

-- The loop of `Value`.
unfoldable pub append_all : Bytes → List Bytes → Bytes
unfolding append_array_quoted_bytes
append_all b [] = b
append_all b (v ∷ vs) = append_all (append_array_quoted_bytes (b ++ b',' ∷ []) v) vs

-- `Value`
unfoldable pub value : StringArray → DriverValue
unfolding append_all append_array_quoted_bytes
value none = nil_value
value (some []) = string_value (codes "{}")
value (some (v ∷ vs)) =
    string_value (append_all (append_array_quoted_bytes (b'{' ∷ []) v) vs ++ b'}' ∷ [])
