-- ===== src/Text/Query.antt =====
-- internal/sqltooling/query.go: the columns of a struct, and the query that selects them. Strings
-- are lists of code points; none is a panic.
pub mod Names
pub mod Columns
use issue.Base.{
  ℕ, Bool, true, false, not, ◌&&◌, ◌||◌, List, [], ◌∷◌, ◌++◌, map, Bytes, codes, Option, none, some,
  if◌then◌else◌, ◌==◌, ◌=ᵇ◌, has_byte, has_prefix, contains, join, length, take, drop,
}
use issue.Text.Unicode.{Unicode}
use issue.Text.Camel.{camel_to_snake}

-- A struct: its fields, each with its name, its `db` tag, empty if there is none, and the fields of
-- its own if its kind is struct.
pub data Struct : Type 0 where
  no_fields : Struct
  field : Bytes → Bytes → Struct → Struct
  struct_field : Bytes → Bytes → Struct → Struct → Struct

infixl 5 ◌>>=?◌
abbrev pub ◌>>=?◌ {ℓ κ} : {A : Type ℓ} {B : Type κ} → Option A → (A → Option B) → Option B
none >>=? f = none
some a >>=? f = f a

-- structHasFields: nil, or a struct.
unfoldable pub struct_has_fields : Option Struct → Option Bool
struct_has_fields none = some false
struct_has_fields (some no_fields) = none
struct_has_fields (some (field name tag rest)) = some true
struct_has_fields (some (struct_field name tag inner rest)) = some true

abbrev pub quote : Bytes → Bytes
quote c = codes "\"" ++ c ++ codes "\""

-- A column of an embedded structure: the tag and the name of the column in one pair of quotes.
unfoldable pub embedded_column : Bytes → Bytes → Bytes
embedded_column tag c = quote (tag ++ codes "." ++ c)

-- The column of a field with the tag.
unfoldable pub column : Bool → Bytes → Bytes → Bytes
unfolding ◌=ᵇ◌
column recursion_started table tag =
    if recursion_started
    then tag
    else if table =ᵇ []
    then quote tag
    else quote table ++ codes "." ++ quote tag

-- The fields of an embedded structure; its tag must not be empty.
unfoldable pub embed : Bytes → Option (List Bytes) → Option (List Bytes)
unfolding embedded_column
embed tag none = none
embed tag (some inner) = some (map (embedded_column tag) inner)

unfoldable pub append_columns : Option (List Bytes) → Option (List Bytes) → Option (List Bytes)
append_columns none rest = none
append_columns (some cs) none = none
append_columns (some cs) (some ds) = some (cs ++ ds)

module _ (unicode : Unicode) where
  -- strings.HasPrefix(strings.ToLower(name), EmbeddedStructurePrefix)
  unfoldable pub is_embedded : Bytes → Bool
  unfolding has_prefix
  is_embedded name = has_prefix (map (λ c. unicode.to_lower c) name) (codes "pg")

  -- The column of a field that is not embedded; the empty tag panics.
  unfoldable pub plain_column : Bool → Bytes → Bytes → Bytes → Option (List Bytes)
  unfolding column ◌=ᵇ◌ camel_to_snake
  plain_column recursion_started table name tag =
      let named = if tag =ᵇ [] then camel_to_snake unicode name else tag in
      if tag =ᵇ codes "-"
      then some []
      else if named =ᵇ []
      then none
      else some (column recursion_started table named ∷ [])

  unfoldable pub embedded_columns : Bytes → Option (List Bytes) → Option (List Bytes)
  unfolding embed ◌=ᵇ◌
  embedded_columns tag inner =
      if tag =ᵇ [] then none else if tag =ᵇ codes "-" then some [] else embed tag inner

  -- ColumnsFromStruct
  unfoldable pub columns_from_struct : Struct → Bytes → Bool → Option (List Bytes)
  unfolding append_columns is_embedded plain_column embedded_columns
  columns_from_struct no_fields table recursion_started = some []
  columns_from_struct (field name tag rest) table recursion_started =
      append_columns (plain_column recursion_started table name tag)
        (columns_from_struct rest table recursion_started)
  columns_from_struct (struct_field name tag inner rest) table recursion_started =
      let own = plain_column recursion_started table name tag in
      let embedded = embedded_columns tag (columns_from_struct inner [] true) in
      append_columns (if is_embedded name then embedded else own)
        (columns_from_struct rest table recursion_started)

-- isColumnForEmbeddedStruct
unfoldable pub is_column_for_embedded_struct : Bytes → Bool
unfolding contains has_prefix
is_column_for_embedded_struct c = contains c (codes ".") && has_prefix c (codes "\"")

-- All but the last, and `c[1:len(c)-1]`.
unfoldable pub init : Bytes → Bytes
init [] = []
init (d ∷ []) = []
init (d ∷ e ∷ s) = d ∷ init (e ∷ s)

unfoldable pub unquote : Bytes → Bytes
unfolding init
unquote [] = []
unquote (c ∷ s) = init s

-- makeColumnsForStructureEmbedding
unfoldable pub make_columns_for_structure_embedding : List Bytes → List Bytes
unfolding is_column_for_embedded_struct unquote
make_columns_for_structure_embedding [] = []
make_columns_for_structure_embedding (c ∷ columns) =
    let rest = make_columns_for_structure_embedding columns in
    if is_column_for_embedded_struct c then (unquote c ++ codes " " ++ c) ∷ rest else rest

unfoldable pub any_embedded : List Bytes → Bool
unfolding is_column_for_embedded_struct
any_embedded [] = false
any_embedded (c ∷ columns) = is_column_for_embedded_struct c || any_embedded columns

-- strings.Replace of the first occurrence of a text that is not empty.
unfoldable pub replace_first : Bytes → Bytes → Bytes → Bytes
unfolding has_prefix
replace_first [] old new = []
replace_first (c ∷ s) old new =
    let later = c ∷ replace_first s old new in
    if has_prefix (c ∷ s) old then new ++ drop (length old) (c ∷ s) else later

-- strings.TrimLeftFunc and strings.TrimRightFunc
unfoldable pub trim_left_func : (ℕ → Bool) → Bytes → Bytes
trim_left_func cut [] = []
trim_left_func cut (c ∷ s) = if cut c then trim_left_func cut s else c ∷ s

unfoldable pub is_nothing : Bytes → Bool
is_nothing [] = true
is_nothing (c ∷ s) = false

unfoldable pub trim_right_func : (ℕ → Bool) → Bytes → Bytes
unfolding is_nothing
trim_right_func cut [] = []
trim_right_func cut (c ∷ s) =
    let rest = trim_right_func cut s in if cut c && is_nothing rest then [] else c ∷ rest

abbrev select_start : Bytes
select_start = codes "SELECT *"

abbrev returning_start : Bytes
returning_start = codes "RETURNING *"

-- overwriteForStructureEmbedding
unfoldable pub overwrite_for_structure_embedding : List Bytes → Bytes → Bytes
unfolding any_embedded make_columns_for_structure_embedding replace_first join
overwrite_for_structure_embedding columns query =
    let overwritten =
      replace_first query select_start
        (codes "SELECT " ++ join (make_columns_for_structure_embedding columns) (codes ", ")) in
    if any_embedded columns then overwritten else query

-- addNameToQuery
unfoldable pub add_name_to_query : Bytes → Bytes → Option Bytes
unfolding ◌=ᵇ◌ contains
add_name_to_query name query =
    if name =ᵇ []
    then none
    else if contains name (codes "\n")
    then none
    else some (codes "-- " ++ name ++ codes "\n" ++ query)

-- The query with the columns of the struct, between the trimming and the name.
unfoldable pub with_columns : Bytes → List Bytes → Bytes
unfolding contains join replace_first overwrite_for_structure_embedding
with_columns query columns =
    if contains query returning_start
    then replace_first query returning_start (codes "RETURNING " ++ join columns (codes ", "))
    else codes "SELECT "
      ++ join columns (codes ", ")
      ++ codes " FROM ("
      ++ overwrite_for_structure_embedding columns query
      ++ codes ") w"

module _ (unicode : Unicode) where
  -- strings.TrimSpace, and strings.TrimRight of semicolons
  unfoldable pub trimmed : Bytes → Bytes
  unfolding trim_left_func trim_right_func
  trimmed query =
      trim_right_func (λ c. c == b';')
        (trim_right_func unicode.is_space (trim_left_func unicode.is_space query))

  unfoldable pub columns_of : Option Struct → Option (List Bytes)
  unfolding columns_from_struct
  columns_of none = some []
  columns_of (some st) = columns_from_struct unicode st [] false

  unfoldable pub body_of_query : Bytes → Option Struct → Bool → Option Bytes
  unfolding columns_of with_columns
  body_of_query query st false = some query
  body_of_query query st true = columns_of st >>=? λ columns. some (with_columns query columns)

  -- newQuery
  unfoldable pub new_query : Bytes → Bytes → Option Struct → Option Bytes
  unfolding trimmed struct_has_fields body_of_query add_name_to_query
  new_query name query st = struct_has_fields st >>=? λ has.
      body_of_query (trimmed query) st has >>=? λ result. add_name_to_query name result

  -- ColumnsForEmbeddedStructs
  unfoldable pub columns_for_embedded_structs : Struct → Option (List Bytes × List Bytes)
  unfolding columns_from_struct make_columns_for_structure_embedding
  columns_for_embedded_structs st = columns_from_struct unicode st [] false >>=? λ outer.
      some (outer, make_columns_for_structure_embedding outer)

-- Stmt, and NewStmt
pub record Stmt : Type 0 where
  pub query : Bytes
  pub name : Bytes

unfoldable pub new_stmt : Unicode → Bytes → Bytes → Option Struct → Option Stmt
unfolding new_query
new_stmt unicode name query st =
    new_query unicode name query st >>=? λ q. some (record { name = name; query = q })
