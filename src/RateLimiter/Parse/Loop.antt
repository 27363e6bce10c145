-- ===== src/RateLimiter/Parse/Loop.antt =====
-- What the loop of `newPattern` (ratelimiter/v2/pattern.go) keeps.
use issue.Base.{
  ℕ, zero, suc, ◌≤◌, ◌≡◌, ◌≢◌, refl, ap, subst, inl, inr, Bool, true, false, List, [], ◌∷◌, ◌++◌,
  arith, Bytes, codes, =ᵇ_iff, length, has_byte, member, before, from, Result, ok, fail, panic,
  ◌>>=◌, ok-of_bind, if◌then◌else◌, Bool-cases, All, All-append, All-map,
}
use issue.RateLimiter.Pattern.{Segment}
use issue.RateLimiter.Pattern.Paths.{MultiLast}
use issue.RateLimiter.Parse.{
  PatternError, out_of_fuel, identifier_segment, literal_segment, segments_loop, inner, cut_suffix,
}

length-from : (b : ℕ) (s : Bytes) → length (from b s) ≤ length s
unfolding from
length-from b [] = omega arith
length-from b (c ∷ s) = ground (arith, length-from b s)

abbrev pub NoFuelOut : {A : Type 0} → Result PatternError A → Type 0
NoFuelOut r = r ≢ fail out_of_fuel

identifier-NoFuelOut :
    (seg rest : Bytes) (seen : List Bytes) → NoFuelOut (identifier_segment seg rest seen)
unfolding identifier_segment
identifier-NoFuelOut seg rest seen = ground arith

pub bind-NoFuelOut :
    {A B : Type 0} (r : Result PatternError A) (k : A → Result PatternError B)
    → NoFuelOut r
    → ((a : A) → NoFuelOut (k a))
    → NoFuelOut (r >>= k)
bind-NoFuelOut (ok a) k h hk = hk a
bind-NoFuelOut (fail e) k h hk = λ eq. h (cc eq)
bind-NoFuelOut panic k h hk = λ eq. cc eq

pub if-NoFuelOut :
    {A : Type 0} (b : Bool) (r r' : Result PatternError A)
    → NoFuelOut r
    → NoFuelOut r'
    → NoFuelOut (if b then r else r')
if-NoFuelOut true r r' h h' = h
if-NoFuelOut false r r' h h' = h'

-- The loop never asks for more fuel than the length of the path.
pub loop_fuel :
    (fuel : ℕ) (path : Bytes) (seen : List Bytes) (acc : List Segment)
    → length path ≤ fuel
    → NoFuelOut (segments_loop fuel path seen acc)
unfolding segments_loop
loop_fuel fuel [] seen acc h = λ e. cc e
loop_fuel zero (c ∷ path) seen acc h = absurd (omega arith)
loop_fuel (suc fuel) (c ∷ []) seen acc h = λ e. cc e
loop_fuel (suc fuel) (c ∷ d ∷ path) seen acc h =
    let seg = before b'/' (d ∷ path) in
    let rest = from b'/' (d ∷ path) in
    let short : length rest ≤ fuel = omega (arith, length-from b'/' (d ∷ path)) in
    if-NoFuelOut (has_byte b'{' seg) _ _
      (bind-NoFuelOut (identifier_segment seg rest seen) _ (identifier-NoFuelOut seg rest seen)
        (λ found. loop_fuel fuel rest (found.s ∷ seen) (acc ++ found ∷ []) short))
      (loop_fuel fuel rest seen (acc ++ literal_segment seg ∷ []) short)

-- The identifier is not empty, its name is new, and it is a multi only at the end of the path.
pub record IsNew (rest : Bytes) (seen : List Bytes) (x : Segment) : Type 0 where
  pub named : x.identifier ≡ true
  pub not_empty : x.s ≢ []
  pub fresh : member x.s seen ≡ false
  pub at_end : x.multi ≡ true → rest ≡ []

identifier-IsNew :
    (seg rest : Bytes) (seen : List Bytes) (x : Segment)
    → identifier_segment seg rest seen ≡ ok x
    → IsNew rest seen x
unfolding identifier_segment
identifier-IsNew seg rest seen x e =
    ground (arith, =ᵇ_iff rest [], =ᵇ_iff (cut_suffix (inner seg) (codes "...")).0 [])

-- No later identifier has the name of this segment.
abbrev Differs : Segment → Segment → Type 0
Differs x y = x.identifier ≡ true → y.identifier ≡ true → x.s ≢ y.s

-- The names of the identifiers are all different.
abbrev pub Distinct : List Segment → Type 0
Distinct [] = Unit
Distinct (x ∷ xs) =
    All (λ y. x.identifier ≡ true → y.identifier ≡ true → x.s ≢ y.s) xs × Distinct xs

abbrev pub IsSingle : Segment → Type 0
IsSingle x = x.multi ≡ false

abbrev pub IsNamed : Segment → Type 0
IsNamed x = x.identifier ≡ true → x.s ≢ []

-- What holds of the segments so far: no multi among them, and `seen` has their names.
pub record Inv (seen : List Bytes) (acc : List Segment) : Type 0 where
  singles : All IsSingle acc
  named : All IsNamed acc
  distinct : Distinct acc
  known : All (λ x. x.identifier ≡ true → member x.s seen ≡ true) acc

-- What the loop returns.
pub record Outcome (segments : List Segment) : Type 0 where
  pub multi_last : MultiLast segments
  pub named : All IsNamed segments
  pub distinct : Distinct segments

MultiLast-append : (acc : List Segment) (x : Segment) → All IsSingle acc → MultiLast (acc ++ x ∷ [])
MultiLast-append [] x h = (λ _. refl, tt)
MultiLast-append (y ∷ acc) x (single, h) = (λ m. cc, MultiLast-append acc x h)

MultiLast-singles : (acc : List Segment) → All IsSingle acc → MultiLast acc
MultiLast-singles [] h = tt
MultiLast-singles (y ∷ acc) (single, h) = (λ m. cc, MultiLast-singles acc h)

Distinct-append :
    (acc : List Segment) (x : Segment)
    → Distinct acc
    → All (λ y. Differs y x) acc
    → Distinct (acc ++ x ∷ [])
Distinct-append [] x d h = (tt, tt)
Distinct-append (y ∷ acc) x (dy, d) (hy, h) =
    (All-append _ acc (x ∷ []) dy (hy, tt), Distinct-append acc x d h)

Inv→Outcome : {seen : List Bytes} {acc : List Segment} → Inv seen acc → Outcome acc
Inv→Outcome v = record {
  multi_last = MultiLast-singles _ v.singles;
  named = v.named;
  distinct = v.distinct;
}

literal-Inv :
    (seg : Bytes) (seen : List Bytes) (acc : List Segment)
    → Inv seen acc
    → Inv seen (acc ++ literal_segment seg ∷ [])
literal-Inv seg seen acc v = record {
  singles = All-append _ acc _ v.singles (refl, tt);
  named = All-append _ acc _ v.named (λ e. cc e, tt);
  distinct = Distinct-append acc _ v.distinct (All-map (λ y _ _ e. cc e) acc v.singles);
  known = All-append _ acc _ v.known (λ e. cc e, tt);
}

-- Names that `seen` has differ from a new one.
new-Differs :
    (seen : List Bytes) (x y : Segment)
    → member x.s seen ≡ false
    → (y.identifier ≡ true → member y.s seen ≡ true)
    → Differs y x
new-Differs seen x y fresh known i j e = cc (known i, ap (λ s. member s seen) e)

member-cons : (k j : Bytes) (seen : List Bytes) → member k seen ≡ true → member k (j ∷ seen) ≡ true
unfolding member
member-cons k j seen h = ground arith

member-head : (k : Bytes) (seen : List Bytes) → member k (k ∷ seen) ≡ true
unfolding member
member-head k seen = ground (arith, =ᵇ_iff k k)

-- The segments behind an identifier, whether it is a multi or not.
identifier-Outcome :
    (rest : Bytes) (seen : List Bytes) (acc : List Segment) (x : Segment)
    → Inv seen acc
    → IsNew rest seen x
    → Outcome (acc ++ x ∷ [])
identifier-Outcome rest seen acc x v new = record {
  multi_last = MultiLast-append acc x v.singles;
  named = All-append _ acc _ v.named (λ _. new.not_empty, tt);
  distinct =
      Distinct-append acc x v.distinct (All-map (λ y. new-Differs seen x y new.fresh) acc v.known);
}

single-Inv :
    (rest : Bytes) (seen : List Bytes) (acc : List Segment) (x : Segment)
    → Inv seen acc
    → IsNew rest seen x
    → x.multi ≡ false
    → Inv (x.s ∷ seen) (acc ++ x ∷ [])
single-Inv rest seen acc x v new m =
    let out = identifier-Outcome rest seen acc x v new in
    record {
      singles = All-append _ acc _ v.singles (m, tt);
      named = out.named;
      distinct = out.distinct;
      known =
          All-append _ acc _ (All-map (λ y h i. member-cons y.s x.s seen (h i)) acc v.known)
            (λ _. member-head x.s seen, tt);
    }

done_Outcome :
    (fuel : ℕ) (seen : List Bytes) (acc segs : List Segment)
    → Outcome acc
    → segments_loop fuel [] seen acc ≡ ok segs
    → Outcome segs
unfolding segments_loop
done_Outcome fuel seen acc segs o e = let same : acc ≡ segs = cc in subst Outcome same o

-- Segments that the loop returns have at most one multi, at their end, and identifiers with different
-- names, none of them empty.
pub loop_Outcome :
    (fuel : ℕ) (path : Bytes) (seen : List Bytes) (acc segs : List Segment)
    → Inv seen acc
    → segments_loop fuel path seen acc ≡ ok segs
    → Outcome segs
unfolding segments_loop
loop_Outcome fuel [] seen acc segs v e = done_Outcome fuel seen acc segs (Inv→Outcome v) e
loop_Outcome zero (c ∷ path) seen acc segs v e = cc e
loop_Outcome (suc fuel) (c ∷ []) seen acc segs v e =
    let same : acc ≡ segs = cc in subst Outcome same (Inv→Outcome v)
loop_Outcome (suc fuel) (c ∷ d ∷ path) seen acc segs v e =
    let seg : Bytes = before b'/' (d ∷ path) in
    let rest : Bytes = from b'/' (d ∷ path) in
    elim (Bool-cases (has_byte b'{' (before b'/' (d ∷ path)))) [
      | inr plain ↦
          loop_Outcome fuel rest seen (acc ++ literal_segment seg ∷ []) segs
            (literal-Inv seg seen acc v) (rw plain at e)
      | inl braces ↦
          let (x, found, e') =
            ok-of_bind (identifier_segment seg rest seen)
              (λ x. segments_loop fuel rest (x.s ∷ seen) (acc ++ x ∷ [])) (rw braces at e) in
          let new = identifier-IsNew seg rest seen x found in
          elim (Bool-cases x.multi) [
            | inr m ↦
                loop_Outcome fuel rest (x.s ∷ seen) (acc ++ x ∷ []) segs
                  (single-Inv rest seen acc x v new m) e'
            | inl m ↦
                done_Outcome fuel (x.s ∷ seen) (acc ++ x ∷ []) segs
                  (identifier-Outcome rest seen acc x v new)
                  (subst (λ r. segments_loop fuel r (x.s ∷ seen) (acc ++ x ∷ []) ≡ ok segs)
                    (new.at_end m) e')
          ]
    ]

pub Inv-nil : Inv [] []
Inv-nil = record { singles = tt; named = tt; distinct = tt; known = tt }
