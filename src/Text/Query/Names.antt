-- ===== src/Text/Query/Names.antt =====
-- The first line of a query of internal/sqltooling/query.go.
use issue.Base.{
  ◌≡◌, refl, ◌∙◌, sym, ap, ℕ, Bool, true, false, ◌||◌, [], ◌∷◌, ◌++◌, append_assoc, Bytes, codes,
  Option, none, some, ◌==◌, Bool-cases, inl, inr, ◌=ᵇ◌, has_prefix, contains, before, arith,
}
use issue.Text.Unicode.{Unicode}
use issue.Text.Query.{
  Struct, ◌>>=?◌, struct_has_fields, add_name_to_query, trimmed, body_of_query, new_query,
}

>>=?-some {ℓ κ} :
    {A : Type ℓ} {B : Type κ} (m : Option A) (f : A → Option B) {b : B}
    → (m >>=? f) ≡ some b
    → (a : A) × (f a ≡ some b)
>>=?-some none f h = absurd (cc h)
>>=?-some (some a) f h = (a, h)

or-false : (a b : Bool) → (a || b) ≡ false → (a ≡ false) × (b ≡ false)
or-false true b h = absurd (cc h)
or-false false b h = (refl, h)

has_prefix-single : (c d : ℕ) (s : Bytes) → has_prefix (c ∷ s) (d ∷ []) ≡ (c == d)
unfolding has_prefix
has_prefix-single c d [] = ground arith
has_prefix-single c d (e ∷ s) = ground arith

before-append :
    (b : ℕ) (s rest : Bytes) → contains s (b ∷ []) ≡ false → before b (s ++ b ∷ rest) ≡ s
unfolding before contains
before-append b [] rest h = ground arith
before-append b (c ∷ s) rest h =
    let parts = or-false (has_prefix (c ∷ s) (b ∷ [])) (contains s (b ∷ [])) h in
    rw (sym (has_prefix-single c b s) ∙ parts.0)
      (ap (λ t. c ∷ t) (before-append b s rest (parts.1)))

named_line :
    (name query : Bytes) {q : Bytes}
    → some (codes "-- " ++ name ++ codes "\n" ++ query) ≡ some q
    → contains name (codes "\n") ≡ false
    → before b'\n' q ≡ codes "-- " ++ name
unfolding before
named_line name query {q} h one_line =
    let same : codes "-- " ++ name ++ codes "\n" ++ query ≡ q = cc h in
    sym (ap (λ t. before b'\n' t) same)
    ∙ ap (λ t. codes "-- " ++ before b'\n' t) (append_assoc name (codes "\n") query)
    ∙ ap (λ t. codes "-- " ++ t) (before-append b'\n' name query one_line)

add_name_to_query-before :
    (name query : Bytes) {q : Bytes}
    → add_name_to_query name query ≡ some q
    → before b'\n' q ≡ codes "-- " ++ name
unfolding add_name_to_query before
add_name_to_query-before name query h = elim (Bool-cases (name =ᵇ [])) [
  | inl nameless ↦ absurd (cc (rw nameless at h))
  | inr named ↦ elim (Bool-cases (contains name (codes "\n"))) [
    | inl broken ↦ absurd (cc (rw (named, broken) at h))
    | inr one_line ↦ named_line name query (rw (named, one_line) at h) one_line
  ]
]

-- The first line of a query that newQuery returns is a comment with the whole name, and the name is
-- all there is in it: so a query that is logged or traced can be told by its first line.
pub new_query-before :
    (unicode : Unicode) (name query : Bytes) (st : Option Struct) {q : Bytes}
    → new_query unicode name query st ≡ some q
    → before b'\n' q ≡ codes "-- " ++ name
unfolding new_query
new_query-before unicode name query st h =
    let has =
      >>=?-some (struct_has_fields st)
        (λ has. body_of_query unicode (trimmed unicode query) st has >>=? λ result.
          add_name_to_query name result)
        h in
    let body =
      >>=?-some (body_of_query unicode (trimmed unicode query) st (has.0))
        (λ result. add_name_to_query name result) (has.1) in
    add_name_to_query-before name (body.0) (body.1)
