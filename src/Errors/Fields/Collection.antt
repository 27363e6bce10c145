-- ===== src/Errors/Fields/Collection.antt =====
-- Which log fields a context of internal/clouderr/clouderr.go and an error hold.
use issue.Base.{
  ℕ, suc, ◌+◌, ◌≡◌, refl, ap, ◌∙◌, List, [], ◌∷◌, ◌++◌, Bytes, Option, none, some, length, arith,
  if◌then◌else◌, ◌=ᵇ◌, =ᵇ_comm, subst, append-nil, append_assoc, length-append,
}
use issue.Base.Table.{Table, lookup, insert, lookup-insert}
use issue.Errors.Chain.{Field, Err, leaf, wrap}
use issue.Errors.Fields.{
  Context, value, fields_from_context, log_field_key_map_from_context, replace_at, add_field,
  add_fields, context_with_fields, fields_of, store_fields, collect,
}

-- The last field of the list with the key.
abbrev pub last_with : Bytes → List Field → Option Field
last_with k [] = none
last_with k (f ∷ fs) = elim (last_with k fs) [
  | none ↦ if f.key =ᵇ k then some f else none
  | some g ↦ some g
]

-- The field with the key that is deepest in the chain, the last one of its error.
abbrev pub deepest : Bytes → Err → Option Field
deepest k (leaf x) = none
deepest k (wrap l e) = elim (deepest k e) [ none ↦ last_with k (fields_of l) | some f ↦ some f ]

either {ℓ} : {A : Type ℓ} → Option A → Option A → Option A
either none b = b
either (some a) b = some a

lookup-store_fields :
    (k : Bytes) (fs : List Field) (m : Table Field)
    → lookup k (store_fields fs m) ≡ either (last_with k fs) (lookup k m)
unfolding store_fields either
lookup-store_fields k [] m = refl
lookup-store_fields k (f ∷ fs) m =
    ground (
      arith,
      =ᵇ_comm f.key k,
      lookup-store_fields k fs (insert f.key f m),
      lookup-insert f.key k f m,
    )

lookup-collect :
    (k : Bytes) (err : Err) (m : Table Field)
    → lookup k (collect err m) ≡ either (deepest k err) (lookup k m)
unfolding collect either
lookup-collect k (leaf x) m = refl
lookup-collect k (wrap l e) m = ground (
  arith,
  lookup-collect k e (store_fields (fields_of l) m),
  lookup-store_fields k (fields_of l) m,
)

either-none : (o : Option Field) → either o none ≡ o
unfolding either
either-none none = refl
either-none (some f) = refl

-- Where several errors of a chain have a field with the same key, `UnwrapFields` keeps the one of the
-- deepest, and of that error the last; a key that no error has is not there.
pub unwrap_fields-deepest : (k : Bytes) (err : Err) → lookup k (collect err []) ≡ deepest k err
unfolding lookup
unwrap_fields-deepest k err = lookup-collect k err [] ∙ either-none (deepest k err)

-- An index of the second list, in the two lists together.
shift : ℕ → Option ℕ → Option ℕ
shift n none = none
shift n (some i) = some (n + i)

replace_at-append :
    (i : ℕ) (f : Field) (xs ys : List Field)
    → replace_at (length xs + i) f (xs ++ ys) ≡ xs ++ replace_at i f ys
unfolding replace_at
replace_at-append i f [] ys = let e : 0 + i ≡ i = omega arith in rw e refl
replace_at-append i f (x ∷ xs) ys =
    let e : suc (length xs) + i ≡ suc (length xs + i) = omega arith in
    rw e (ap (λ zs. x ∷ zs) (replace_at-append i f xs ys))

-- The first key map says the same as the second, of a list that stands behind `n` fields.
abbrev IsShifted : ℕ → Table ℕ → Table ℕ → Type 0
IsShifted n a b = (k : Bytes) → lookup k a ≡ shift n (lookup k b)

add_field-append :
    (a b : Table ℕ) (xs ys : List Field) (f : Field) (r : Option ℕ)
    → IsShifted (length xs) a b
    → ((add_field a (xs ++ ys) f (shift (length xs) r)).1 ≡ xs ++ (add_field b ys f r).1)
      × IsShifted
          (length xs)
          (add_field a (xs ++ ys) f (shift (length xs) r)).0
          (add_field b ys f r).0
unfolding add_field shift
add_field-append a b xs ys f none h = (
  append_assoc xs ys (f ∷ []),
  λ k. ground (
    arith,
    lookup-insert f.key k (length (xs ++ ys)) a,
    lookup-insert f.key k (length ys) b,
    length-append xs ys,
    h k,
  ),
)
add_field-append a b xs ys f (some i) h = (replace_at-append i f xs ys, h)

add_fields-append :
    (a b : Table ℕ) (xs ys fields : List Field)
    → IsShifted (length xs) a b
    → (add_fields a (xs ++ ys) fields).1 ≡ xs ++ (add_fields b ys fields).1
unfolding add_fields
add_fields-append a b xs ys [] h = refl
add_fields-append a b xs ys (f ∷ fields) h =
    let (e, shifted) = add_field-append a b xs ys f (lookup f.key b) h in
    let next : Table ℕ × List Field = add_field b ys f (lookup f.key b) in
    let found : add_field a (xs ++ ys) f (lookup f.key a)
        ≡ add_field a (xs ++ ys) f (shift (length xs) (lookup f.key b)) =
      ap (add_field a (xs ++ ys) f) (h f.key) in
    let keys : Table ℕ = (add_field a (xs ++ ys) f (shift (length xs) (lookup f.key b))).0 in
    ap (λ r. (add_fields r.0 r.1 fields).1) found
    ∙ (ap (λ zs. (add_fields keys zs fields).1) e
        ∙ add_fields-append keys next.0 xs next.1 fields shifted)

IsShifted-empty : (n : ℕ) → IsShifted n [] []
unfolding lookup shift
IsShifted-empty n k = refl

-- What is new among the fields of one call: the last one of each key, where the first one stood.
abbrev pub added : List Field → List Field
added fields = (add_fields [] [] fields).1

-- A nested `ContextWithFields` does not know the keys of its parent: its fields stand behind those of
-- the parent, which stay, a field with the same key included.
pub context_with_fields-nested :
    (ctx : Context) (first second : List Field)
    → fields_from_context (context_with_fields (context_with_fields ctx first) second)
      ≡ fields_from_context (context_with_fields ctx first) ++ added second
unfolding context_with_fields fields_from_context log_field_key_map_from_context value
context_with_fields-nested ctx first second =
    let lf : List Field =
      (add_fields (log_field_key_map_from_context ctx) (fields_from_context ctx) first).1 in
    subst (λ xs. (add_fields [] xs second).1 ≡ lf ++ added second) (append-nil lf)
      (add_fields-append [] [] lf [] second (IsShifted-empty (length lf)))
