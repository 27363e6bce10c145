-- ===== src/Text/Tests.antt =====
-- The theorems on names and queries at concrete ones, with the ASCII part of the package unicode.
use issue.Base.{
  ℕ, ◌+◌, ◌≡◌, refl, true, false, Bool, ◌&&◌, ◌||◌, ◌==◌, [], ◌∷◌, ◌++◌, codes, some, leb,
  if◌then◌else◌, Bytes, ◌=ᵇ◌, before, arith,
}
use issue.Text.Unicode.{Unicode}
use issue.Text.Snake.{to_snake_case}
use issue.Text.Snake.Shape.{IsSnake}
use issue.Text.Camel.{camel_to_snake}
use issue.Text.Query.{
  Struct, no_fields, field, struct_field, is_embedded, columns_from_struct, new_query,
}
use issue.Text.Query.Names.{new_query-before}
use issue.Text.Snake.Fixed.{to_snake_case-Fixed}

abbrev capital : ℕ → Bool
capital c = leb b'A' c && leb c b'Z'

abbrev ascii : Unicode
ascii = record {
  is_upper = capital;
  is_lower = λ c. leb b'a' c && leb c b'z';
  is_space = λ c. c == b' ' || c == b'\n' || c == b'\t';
  to_lower = λ c. if capital c then c + 32 else c;
}

ascii_lower : (c : ℕ) → ascii.is_upper (ascii.to_lower c) ≡ false
ascii_lower c = ground arith

snake_run : to_snake_case (codes "__userID HTTPCode-x") ≡ codes "user_id_httpc_ode_x"
unfolding to_snake_case
snake_run = refl

camel_run : camel_to_snake ascii (codes "UserIDName") ≡ codes "user_id_name"
unfolding camel_to_snake
camel_run = refl

to_snake_case-Fixed_example :
    IsSnake (to_snake_case (codes "URL path"))
    × (to_snake_case (to_snake_case (codes "URL path")) ≡ to_snake_case (codes "URL path"))
to_snake_case-Fixed_example = to_snake_case-Fixed (codes "URL path")

abbrev user : Struct
user = field (codes "ID") [] (field (codes "Name") (codes "full_name") no_fields)

user_columns : columns_from_struct ascii user [] true ≡ some (codes "id" ∷ codes "full_name" ∷ [])
unfolding columns_from_struct
user_columns = refl

embedded_name : is_embedded ascii (codes "PGUser") ≡ true
unfolding is_embedded
embedded_name = refl

users_tag : (codes "users" =ᵇ []) ≡ false
unfolding ◌=ᵇ◌
users_tag = refl

users_kept : (codes "users" =ᵇ codes "-") ≡ false
unfolding ◌=ᵇ◌
users_kept = refl

-- Embedding within embedding nests the quotes.
nested_run :
    columns_from_struct ascii
      (struct_field
        (codes "PGOuter")
        (codes "o")
        (struct_field (codes "PGUser") (codes "u") user no_fields)
        no_fields)
      []
      false
    ≡ some (codes "\"o.\"u.id\"\"" ∷ codes "\"o.\"u.full_name\"\"" ∷ [])
unfolding columns_from_struct
nested_run = refl

abbrev users_query : Bytes
users_query = codes "-- users\nSELECT \"id\", \"full_name\" FROM (SELECT * FROM users) w"

users_query_run :
    new_query ascii (codes "users") (codes " SELECT * FROM users;") (some user) ≡ some users_query
unfolding new_query
users_query_run = refl

new_query-before_example : before b'\n' users_query ≡ codes "-- " ++ codes "users"
new_query-before_example =
    new_query-before ascii (codes "users") (codes " SELECT * FROM users;") (some user)
      users_query_run
