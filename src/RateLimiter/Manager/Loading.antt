-- ===== src/RateLimiter/Manager/Loading.antt =====
-- Where `parseConfig` of ratelimiter/v2/rate_limiter.go puts a new pattern.
use issue.Base.{
  ℕ, zero, suc, ◌+◌, ◌≤◌, ◌≡◌, ◌≢◌, refl, ap, subst, ◌∙◌, inl, inr, Bool, true, false, ◌||◌, List,
  [], ◌∷◌, arith, length, Option, none, some, Bool-cases, Option-cases, if◌then◌else◌, All,
}
use issue.RateLimiter.Pattern.{
  Pattern, Relationship, equivalent, more_general, more_specific, disjoint, overlaps, same,
  compare_paths_and_methods,
}
use issue.RateLimiter.Manager.{
  Manager, Status, done, panicked, failed, insert_at, scan, first_index, insert_elem, place,
  if_done,
}

unfoldable pub is_more_specific : Option Relationship → Bool
is_more_specific (some more_specific) = true
is_more_specific _ = false

-- Insertion by a reading of the list: in front of the first pattern that the new one is more
-- specific than.
unfoldable pub insert_before : Pattern → List Pattern → List Pattern
insert_before p [] = p ∷ []
insert_before p (q ∷ qs) =
    let rest = insert_before p qs in
    if is_more_specific (compare_paths_and_methods p q) then p ∷ q ∷ qs else q ∷ rest

-- The relationship of the new pattern to another that lets it in.
pub record IsCompatible (p q : Pattern) : Type 0 where
  pub relation : Relationship
  pub compared : compare_paths_and_methods p q ≡ some relation
  pub no_equivalent : relation ≢ equivalent
  pub no_overlap : relation ≢ overlaps

round_compatible :
    (r : Relationship)
    → (same r equivalent || same r overlaps) ≡ false
    → (r ≢ equivalent) × (r ≢ overlaps) × (is_more_specific (some r) ≡ same r more_specific)
unfolding same is_more_specific
round_compatible equivalent h = cc
round_compatible more_general h = ((λ e. cc e), (λ e. cc e), refl)
round_compatible more_specific h = ((λ e. cc e), (λ e. cc e), refl)
round_compatible disjoint h = ((λ e. cc e), (λ e. cc e), refl)
round_compatible overlaps h = cc

-- One round of the inner loop that goes on.
scan_round :
    (p q : Pattern) (qs : List Pattern) (idx : ℕ) (ins found : Option ℕ)
    → scan p (q ∷ qs) idx ins ≡ insert_at found
    → (r : Relationship) × (compare_paths_and_methods p q ≡ some r)
      × ((same r equivalent || same r overlaps) ≡ false)
      × (scan p qs (idx + 1) (first_index r idx ins) ≡ insert_at found)
unfolding scan
scan_round p q qs idx ins found e = elim (Option-cases (compare_paths_and_methods p q)) [
  | inl n ↦ absurd (ground (arith, e, n))
  | inr (r, c) ↦ elim (Bool-cases (same r equivalent || same r overlaps)) [
    | inl bad ↦ absurd (ground (arith, e, c, bad))
    | inr good ↦ (r, c, good, ground (arith, e, c, good))
  ]
]

pub scan-IsCompatible :
    (p : Pattern) (qs : List Pattern) (idx : ℕ) (ins found : Option ℕ)
    → scan p qs idx ins ≡ insert_at found
    → All (IsCompatible p) qs
scan-IsCompatible p [] idx ins found e = tt
scan-IsCompatible p (q ∷ qs) idx ins found e =
    let (r, c, good, rest) = scan_round p q qs idx ins found e in
    let (a, b, _) = round_compatible r good in
    (
      record { relation = r; compared = c; no_equivalent = a; no_overlap = b },
      scan-IsCompatible p qs (idx + 1) (first_index r idx ins) found rest,
    )

-- The first index stays.
scan_found :
    (p : Pattern) (qs : List Pattern) (idx i : ℕ) (found : Option ℕ)
    → scan p qs idx (some i) ≡ insert_at found
    → found ≡ some i
scan_found p [] idx i found e = unfold scan in cc e
scan_found p (q ∷ qs) idx i found e =
    let (r, c, good, rest) = scan_round p q qs idx (some i) found e in
    scan_found p qs (idx + 1) i found (unfold first_index in rest)

insert_elem-suc :
    {A : Type 0} (k : ℕ) (p q : A) (qs : List A)
    → insert_elem (suc k) p (q ∷ qs) ≡ q ∷ insert_elem k p qs
unfolding insert_elem
insert_elem-suc k p q qs = refl

pub length-insert_elem :
    {A : Type 0} (k : ℕ) (p : A) (qs : List A)
    → k ≤ length qs
    → length (insert_elem k p qs) ≡ suc (length qs)
unfolding insert_elem
length-insert_elem zero p qs h = refl
length-insert_elem (suc k) p [] h = absurd (omega arith)
length-insert_elem (suc k) p (q ∷ qs) h = ap suc (length-insert_elem k p qs (omega arith))

-- The index that the scan finds is the place of `insert_before`.
pub scan-place :
    (p : Pattern) (qs : List Pattern) (idx : ℕ) (found : Option ℕ)
    → scan p qs idx none ≡ insert_at found
    → (k : ℕ) × (place found (idx + length qs) ≡ idx + k)
      × (insert_elem k p qs ≡ insert_before p qs)
      × (k ≤ length qs)
unfolding insert_before
scan-place p [] idx found e =
    let nothing : found ≡ none = unfold scan in cc e in
    (0, rw nothing (unfold place in refl), unfold insert_elem in refl, omega arith)
scan-place p (q ∷ qs) idx found e =
    let (r, c, good, rest) = scan_round p q qs idx none found e in
    let (_, _, reads) = round_compatible r good in
    elim (Bool-cases (same r more_specific)) [
      | inl narrower ↦
          let here : first_index r idx none ≡ some idx =
            unfold first_index in ground (arith, narrower) in
          let at =
            scan_found p qs (idx + 1) idx found
              (subst (λ i. scan p qs (idx + 1) i ≡ insert_at found) here rest) in
          (
            0,
            rw at (unfold place in omega arith),
            unfold insert_elem in ground (arith, c, reads, narrower),
            omega arith,
          )
      | inr wider ↦
          let later : first_index r idx none ≡ none = unfold first_index in ground (arith, wider) in
          let (k, at, inserted, within) =
            scan-place p qs (idx + 1) found
              (subst (λ i. scan p qs (idx + 1) i ≡ insert_at found) later rest) in
          (
            suc k,
            let shift : idx + suc (length qs) ≡ idx + 1 + length qs = omega arith in
                rw shift (at ∙ omega arith),
            insert_elem-suc k p q qs ∙ ap (λ zs. q ∷ zs) inserted ∙ ground (arith, c, reads, wider),
            omega (arith, within),
          )
    ]

-- A round that ended well goes on.
pub if_done-done :
    (r : Manager × Status) (next : Manager → Manager × Status)
    → (if_done r next).1 ≡ done
    → (r.1 ≡ done) × (if_done r next ≡ next r.0)
unfolding if_done
if_done-done (m, done) next h = (refl, refl)
if_done-done (m, panicked) next h = cc h
if_done-done (m, failed e) next h = cc h
