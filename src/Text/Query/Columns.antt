-- ===== src/Text/Query/Columns.antt =====
-- The columns of an embedded structure in a query of internal/sqltooling/query.go.
use issue.Base.{
  ◌≡◌, refl, ◌∙◌, ap, ap, ℕ, true, false, List, [], ◌∷◌, ◌++◌, append_assoc, append-nil, map, Bytes,
  codes, some, ◌=ᵇ◌, has_prefix, contains, arith,
}
use issue.Text.Unicode.{Unicode}
use issue.Text.Query.{
  Struct, no_fields, struct_field, quote, embedded_column, embed, append_columns, is_embedded,
  embedded_columns, columns_from_struct, is_column_for_embedded_struct, init, unquote,
  make_columns_for_structure_embedding, columns_for_embedded_structs,
}

init-append : (s : Bytes) (c : ℕ) → init (s ++ c ∷ []) ≡ s
unfolding init
init-append [] c = refl
init-append (d ∷ []) c = refl
init-append (d ∷ e ∷ s) c = ap (λ t. d ∷ t) (init-append (e ∷ s) c)

unquote-quote : (s : Bytes) → unquote (quote s) ≡ s
unfolding unquote
unquote-quote s = init-append s b'"'

contains-append : (s t p : Bytes) → contains t p ≡ true → contains (s ++ t) p ≡ true
unfolding contains
contains-append [] t p h = h
contains-append (c ∷ s) t p h = ground (arith, contains-append s t p h)

has_prefix-nothing : (s : Bytes) → has_prefix s [] ≡ true
unfolding has_prefix
has_prefix-nothing [] = refl
has_prefix-nothing (c ∷ s) = refl

contains_here : (c : ℕ) (s p : Bytes) → has_prefix (c ∷ s) p ≡ true → contains (c ∷ s) p ≡ true
unfolding contains
contains_here c s p h = ground (arith, h)

-- The column of the embedded structure as the inner query names it.
abbrev pub qualified : Bytes → Bytes → Bytes
qualified tag c = tag ++ codes "." ++ c ++ codes " " ++ embedded_column tag c

embedded_column-recognized :
    (tag c : Bytes) → is_column_for_embedded_struct (embedded_column tag c) ≡ true
unfolding has_prefix is_column_for_embedded_struct embedded_column
embedded_column-recognized tag c =
    let body = tag ++ codes "." ++ c ++ codes "\"" in
    let same : body ≡ tag ++ (b'.' ∷ (c ++ codes "\"")) =
      append_assoc (tag ++ codes ".") c (codes "\"")
      ∙ append_assoc tag (codes ".") (c ++ codes "\"") in
    let dotted : contains body (codes ".") ≡ true =
      ap (λ t. contains t (codes ".")) same
      ∙ contains-append tag (b'.' ∷ (c ++ codes "\"")) (codes ".") (
          contains_here b'.' (c ++ codes "\"") (codes ".")
            (has_prefix-nothing (c ++ codes "\""))) in
    ground (arith, contains-append (codes "\"") body (codes ".") dotted, has_prefix-nothing body)

unquote-embedded_column : (tag c : Bytes) → unquote (embedded_column tag c) ≡ tag ++ codes "." ++ c
unfolding embedded_column
unquote-embedded_column tag c = unquote-quote (tag ++ codes "." ++ c)

make_columns-embedded :
    (tag : Bytes) (cs : List Bytes)
    → make_columns_for_structure_embedding (map (embedded_column tag) cs) ≡ map (qualified tag) cs
unfolding make_columns_for_structure_embedding
make_columns-embedded tag [] = refl
make_columns-embedded tag (c ∷ cs) = rw (embedded_column-recognized tag c) (
    rw (unquote-embedded_column tag c)
      (ap (λ t. qualified tag c ∷ t) (make_columns-embedded tag cs)))

-- For a struct whose only field is an embedded structure with a tag, ColumnsForEmbeddedStructs
-- returns each column of that structure twice, in the same order: quoted with the tag, which is what
-- the outer query selects, and as the column of the table with that very name behind it, which is
-- what the inner query selects.
pub columns_for_embedded_structs-both :
    (unicode : Unicode) (name tag : Bytes) (inner : Struct) (cs : List Bytes)
    → is_embedded unicode name ≡ true
    → (tag =ᵇ []) ≡ false
    → (tag =ᵇ codes "-") ≡ false
    → columns_from_struct unicode inner [] true ≡ some cs
    → columns_for_embedded_structs unicode (struct_field name tag inner no_fields)
      ≡ some (map (embedded_column tag) cs, map (qualified tag) cs)
unfolding columns_for_embedded_structs columns_from_struct embedded_columns embed append_columns
columns_for_embedded_structs-both unicode name tag inner cs embedded tagged kept found =
    rw (embedded, tagged, kept, found)
      (rw (append-nil (map (embedded_column tag) cs))
        (ap (λ inside. some (map (embedded_column tag) cs, inside)) (make_columns-embedded tag cs)))
