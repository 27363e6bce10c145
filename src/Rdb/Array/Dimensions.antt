-- ===== src/Rdb/Array/Dimensions.antt =====
-- The dimensions that `parseArray` of internal/rdb/array.go counts.
use issue.Base.{
  ℕ, zero, suc, ◌+◌, ◌-◌, ◌%◌, ◌≤◌, ◌<◌, ◌≡◌, refl, ap, inl, inr, true, false, List, [], ◌∷◌, Bytes,
  ◌==◌, ltb, length, drop, replicate, Option, ok, fail, if◌then◌else◌, arith, Bool-cases, All,
}
use issue.Rdb.Array.{mismatched_dimensions, change_at, count_at, check_dims, finish_array}
use issue.Rdb.Array.Settles.{Settles, Settles-bind, Settles-map}

abbrev pub Positive : ℕ → Type 0
Positive d = 0 < d

-- The dimensions that are complete, those beyond the depth, are positive.
pub record Complete (depth : ℕ) (dims : List ℕ) : Type 0 where
  pub within : depth ≤ length dims
  pub positive : All Positive (drop depth dims)

pub record Changed (f : ℕ → ℕ) (i : ℕ) (dims ds : List ℕ) : Type 0 where
  pub size : length ds ≡ length dims
  pub behind : All Positive (drop (suc i) dims) → All Positive (drop (suc i) ds)
  pub from_here : ((d : ℕ) → 0 < f d) → All Positive (drop (suc i) dims) → All Positive (drop i ds)

pub change_at-Changed :
    (f : ℕ → ℕ) (i : ℕ) (dims : List ℕ)
    → i < length dims
    → Settles (Changed f i dims) (change_at f i dims)
unfolding change_at
change_at-Changed f i [] h = absurd (omega (arith, h))
change_at-Changed f zero (d ∷ dims) h = record {
  size = refl;
  behind = λ p. p;
  from_here = λ g p. (g d, p);
}
change_at-Changed f (suc i) (d ∷ dims) h =
    Settles-bind (Changed f i dims) (Changed f (suc i) (d ∷ dims)) (change_at f i dims)
      (λ ds. ok (d ∷ ds)) (change_at-Changed f i dims (omega (arith, h)))
      (λ ds c. record { size = ap suc c.size; behind = c.behind; from_here = c.from_here })

pub drop-Positive :
    (i : ℕ) (dims : List ℕ) → All Positive (drop i dims) → All Positive (drop (suc i) dims)
drop-Positive i [] h = tt
drop-Positive zero (d ∷ dims) (p, h) = h
drop-Positive (suc i) (d ∷ dims) h = drop-Positive i dims h

-- `dims[depth-1]++` keeps the complete dimensions, and completes the one that it counts.
pub count_at-Complete :
    (depth : ℕ) (dims : List ℕ)
    → 0 < depth
    → Complete depth dims
    → Settles (λ ds. Complete depth ds × Complete (depth - 1) ds) (count_at depth dims)
unfolding count_at
count_at-Complete zero dims h c = absurd (omega (arith, h))
count_at-Complete (suc n) dims h c =
    let e : suc n - 1 ≡ n = omega arith in
    rw e (
      Settles-map (Changed suc n dims) (λ ds. Complete (suc n) ds × Complete n ds)
        (change_at suc n dims)
        (λ ds g. (
          record { within = omega (arith, c.within, g.size); positive = g.behind c.positive },
          record {
            within = omega (arith, c.within, g.size);
            positive = g.from_here (λ d. omega arith) c.positive;
          },
        ))
        (change_at-Changed suc n dims (omega (arith, c.within))))

pub not_deepest : (depth n : ℕ) → depth ≤ n → (depth == n) ≡ false → depth < n
not_deepest depth n h e = ground arith

pub deeper :
    (depth : ℕ) (dims ds : List ℕ)
    → depth < length dims
    → Complete depth dims
    → Changed (λ _. 0) depth dims ds
    → Complete (depth + 1) ds
deeper depth dims ds room c g =
    let next : depth + 1 ≡ suc depth = omega arith in
    rw next (record {
      within = omega (arith, room, g.size);
      positive = g.behind (drop-Positive depth dims c.positive);
    })

pub check_dims-Settles :
    (n : ℕ) (dims : List ℕ) → All Positive dims → Settles (λ _. Unit) (check_dims n dims)
unfolding check_dims
check_dims-Settles n [] h = tt
check_dims-Settles n (zero ∷ dims) (p, h) = absurd (omega (arith, p))
check_dims-Settles n (suc d ∷ dims) (p, h) =
    Settles-bind (λ _. Unit) (λ _. Unit) (check_dims n dims)
      (λ rest. if n % suc d == 0 then ok tt else fail mismatched_dimensions)
      (check_dims-Settles n dims h)
      (λ rest k. elim (Bool-cases (n % suc d == 0)) [
        | inl even ↦ rw even tt
        | inr odd ↦ rw odd (λ e. cc e)
      ])

pub finish_array-Settles :
    (total depth : ℕ) (dims : List ℕ) (elems : List (Option Bytes))
    → Complete depth dims
    → Settles (λ _. Unit) (finish_array total depth dims elems)
unfolding finish_array
finish_array-Settles total zero dims elems c =
    Settles-bind (λ _. Unit) (λ _. Unit) (check_dims (length elems) dims)
      (λ checked. ok (dims, elems)) (check_dims-Settles (length elems) dims c.positive)
      (λ checked k. tt)
finish_array-Settles total (suc depth) dims elems c =
    let open_ : ltb 0 (suc depth) ≡ true = ground arith in rw open_ (λ e. cc e)

pub replicate-Complete : (depth : ℕ) → Complete depth (replicate depth 0)
replicate-Complete zero = record { within = omega arith; positive = tt }
replicate-Complete (suc depth) =
    let c = replicate-Complete depth in
    record { within = omega (arith, c.within); positive = c.positive }

pub finish_array-empty : (total depth : ℕ) → Settles (λ _. Unit) (finish_array total depth [] [])
unfolding finish_array check_dims
finish_array-empty total depth = elim (Bool-cases (ltb 0 depth)) [
  | inl open_ ↦ rw open_ (λ e. cc e)
  | inr closed ↦ rw closed tt
]
