-- ===== src/Rdb/Dsn/Ending.antt =====
-- parseOpts of internal/rdb/internal/driver/dsn.go ends on every string.
use issue.Base.{
  ◌≡◌, ◌≢◌, refl, ap, ◌⊎◌, inl, inr, ◌≤◌, ◌<◌, ℕ, zero, suc, Bool, ◌||◌, [], ◌∷◌, ◌++◌, Bytes,
  Option, none, some, ◌==◌, length, ok, fail, panic, ◌>>=◌, Bool-cases, Option-cases, of_branches,
  arith,
}
use issue.Base.Table.{Table, insert}
use issue.Rdb.Dsn.{
  DsnError, Parsed, skip_spaces, scan_key, find_equals, stops, scan_value, scan_quoted, value_from,
  after_key, scan_option, parse_from, parse_opts,
}

-- It is no panic, and what is left has at most so many code points.
abbrev Within {ℓ} : {A : Type ℓ} → ℕ → Parsed (A × Bytes) → Type 0
Within n (ok (a, s)) = length s ≤ n
Within n (fail err) = Unit
Within n panic = ⊥

Within-le {ℓ} :
    {A : Type ℓ} {m n : ℕ} (found : Parsed (A × Bytes)) → m ≤ n → Within m found → Within n found
Within-le (ok (a, s)) le h = omega (arith, le, h)
Within-le (fail err) le h = tt
Within-le panic le h = h

-- So of a rest that there may be.
abbrev RestWithin : ℕ → Option (ℕ × Bytes) → Type 0
RestWithin n none = Unit
RestWithin n (some (r, s)) = length s ≤ n

RestWithin-le : {m n : ℕ} (o : Option (ℕ × Bytes)) → m ≤ n → RestWithin m o → RestWithin n o
RestWithin-le none h g = tt
RestWithin-le (some (r, t)) h g = omega (arith, h, g)

scan_quoted-Within : (val s : Bytes) → Within (length s) (scan_quoted val s)
unfolding scan_quoted
scan_quoted-Within val [] = tt
scan_quoted-Within val (c ∷ []) =
    of_branches {this = ok (val, [])} {other = fail _} (Within 1) (c == b'\'') (omega arith) tt
scan_quoted-Within val (c ∷ d ∷ s) = elim (Bool-cases (c == b'\'')) [
  | inl end ↦ rw end (omega arith)
  | inr going_on ↦ elim (Bool-cases (c == b'\\')) [
    | inl special ↦
        rw (going_on, special)
          (Within-le (scan_quoted (val ++ d ∷ []) s) (omega arith)
            (scan_quoted-Within (val ++ d ∷ []) s))
    | inr plain ↦
        rw (going_on, plain)
          (Within-le (scan_quoted (val ++ c ∷ []) (d ∷ s)) (omega arith)
            (scan_quoted-Within (val ++ c ∷ []) (d ∷ s)))
  ]
]

rest_eq : (c r : ℕ) (s t : Bytes) → ◌≡◌ {A = Option (ℕ × Bytes)} (some (c, s)) (some (r, t)) → s ≡ t
rest_eq c r s t h = cc h

module _ (is_space : ℕ → Bool) where
  skip_spaces-RestWithin : (s : Bytes) → RestWithin (length s) (skip_spaces is_space s)
  unfolding skip_spaces
  skip_spaces-RestWithin [] = tt
  skip_spaces-RestWithin (c ∷ s) = elim (Bool-cases (is_space c)) [
    | inl space ↦
        rw space (RestWithin-le (skip_spaces is_space s) (omega arith) (skip_spaces-RestWithin s))
    | inr here ↦ rw here (omega arith)
  ]

  -- What is behind the first code point that is no space is shorter.
  skip_spaces-shorter :
      (s : Bytes) (r : ℕ) (t : Bytes) → skip_spaces is_space s ≡ some (r, t) → length t < length s
  unfolding skip_spaces
  skip_spaces-shorter [] r t h = absurd (cc h)
  skip_spaces-shorter (c ∷ s) r t h = elim (Bool-cases (is_space c)) [
    | inl space ↦ omega (arith, skip_spaces-shorter s r t (rw space at h))
    | inr here ↦ omega (arith, ap (λ u. length u) (rest_eq c r s t (rw here at h)))
  ]

  scan_key-length :
      (key : Bytes) (r : ℕ) (s : Bytes) → length (scan_key is_space key r s).2 ≤ length s
  unfolding scan_key
  scan_key-length key r [] = elim (Bool-cases (is_space r || r == b'=')) [
    | inl end ↦ rw end (omega arith)
    | inr going_on ↦ rw going_on (omega arith)
  ]
  scan_key-length key r (c ∷ s) = elim (Bool-cases (is_space r || r == b'=')) [
    | inl end ↦ rw end (omega arith)
    | inr going_on ↦ rw going_on (omega (arith, scan_key-length (key ++ r ∷ []) c s))
  ]

  scan_value-Within :
      (val : Bytes) (r : ℕ) (s : Bytes) → Within (length s) (scan_value is_space val r s)
  unfolding scan_value
  scan_value-Within val r [] = elim (Bool-cases (stops is_space r)) [
    | inl end ↦ rw end (omega arith)
    | inr going_on ↦ elim (Bool-cases (r == b'\\')) [
      | inl special ↦ rw (going_on, special) tt
      | inr plain ↦ rw (going_on, plain) (omega arith)
    ]
  ]
  scan_value-Within val r (c ∷ []) = elim (Bool-cases (stops is_space r)) [
    | inl end ↦ rw end (omega arith)
    | inr going_on ↦ elim (Bool-cases (r == b'\\')) [
      | inl special ↦ rw (going_on, special) (omega arith)
      | inr plain ↦
          rw (going_on, plain)
            (Within-le (scan_value is_space (val ++ r ∷ []) c []) (omega arith)
              (scan_value-Within (val ++ r ∷ []) c []))
    ]
  ]
  scan_value-Within val r (c ∷ d ∷ s) = elim (Bool-cases (stops is_space r)) [
    | inl end ↦ rw end (omega arith)
    | inr going_on ↦ elim (Bool-cases (r == b'\\')) [
      | inl special ↦
          rw (going_on, special)
            (Within-le (scan_value is_space (val ++ c ∷ []) d s) (omega arith)
              (scan_value-Within (val ++ c ∷ []) d s))
      | inr plain ↦
          rw (going_on, plain)
            (Within-le (scan_value is_space (val ++ r ∷ []) c (d ∷ s)) (omega arith)
              (scan_value-Within (val ++ r ∷ []) c (d ∷ s)))
    ]
  ]

  find_equals-RestWithin :
      (stop : Option ℕ) (s : Bytes) → RestWithin (length s) (find_equals is_space stop s)
  unfolding find_equals
  find_equals-RestWithin none s = tt
  find_equals-RestWithin (some r) s = elim (Bool-cases (r == b'=')) [
    | inl equals ↦ rw equals (omega arith)
    | inr other ↦ rw other (skip_spaces-RestWithin s)
  ]

  value_from-Within :
      (n : ℕ) (o : Option (ℕ × Bytes)) → RestWithin n o → Within n (value_from is_space o)
  unfolding value_from
  value_from-Within n none h = omega arith
  value_from-Within n (some (r, s)) h = elim (Bool-cases (r == b'\'')) [
    | inl quote ↦ rw quote (Within-le (scan_quoted [] s) h (scan_quoted-Within [] s))
    | inr plain ↦ rw plain (Within-le (scan_value is_space [] r s) h (scan_value-Within [] r s))
  ]

  after_key-Within :
      (n : ℕ) (key : Bytes) (o : Option (ℕ × Bytes))
      → RestWithin n o
      → Within n (after_key is_space key o)
  unfolding after_key
  after_key-Within n key none h = tt
  after_key-Within n key (some (r, s)) h = elim (Bool-cases (r == b'=')) [
    | inl equals ↦ rw equals (
        Within-le (value_from is_space (skip_spaces is_space s)) h
          (value_from-Within (length s) (skip_spaces is_space s) (skip_spaces-RestWithin s)))
    | inr other ↦ rw other tt
  ]

  with_key-Within :
      (n : ℕ) (key : Bytes) (found : Parsed (Bytes × Bytes))
      → Within n found
      → Within {A = Bytes × Bytes} n (found >>= λ value. ok ((key, value.0), value.1))
  with_key-Within n key (ok (value, s)) h = h
  with_key-Within n key (fail err) h = tt
  with_key-Within n key panic h = h

  scan_option-Within : (r : ℕ) (s : Bytes) → Within (length s) (scan_option is_space r s)
  unfolding scan_option
  scan_option-Within r s =
      let scanned = scan_key is_space [] r s in
      let equals = find_equals is_space scanned.1 scanned.2 in
      with_key-Within (length s) (scanned.0) (after_key is_space (scanned.0) equals) (
        after_key-Within (length s) (scanned.0) equals (
          RestWithin-le equals (scan_key-length [] r s)
            (find_equals-RestWithin (scanned.1) (scanned.2))))

  bind_total :
      (n : ℕ) (found : Parsed ((Bytes × Bytes) × Bytes))
      (go_on : (Bytes × Bytes) × Bytes → Parsed (Table Bytes))
      → Within n found
      → ((option : Bytes × Bytes) (s : Bytes) → length s ≤ n → go_on (option, s) ≢ panic)
      → (found >>= go_on) ≢ panic
  bind_total n (ok (option, s)) go_on h total = total option s h
  bind_total n (fail err) go_on h total = λ e. cc e
  bind_total n panic go_on h total = absurd h

  parse_from-total :
      (fuel : ℕ) (s : Bytes) (o : Table Bytes)
      → length s < fuel
      → parse_from is_space fuel s o ≢ panic
  unfolding parse_from
  parse_from-total zero s o enough = elim enough [ ]
  parse_from-total (suc fuel) s o enough = elim (Option-cases (skip_spaces is_space s)) [
    | inl over ↦ rw (over, parse_from) (λ e. cc e)
    | inr ((r, rest), more) ↦
        rw (more, parse_from)
          (bind_total (length rest) (scan_option is_space r rest)
            (λ found. parse_from is_space fuel (found.1) (insert (found.0).0 (found.0).1 o))
            (scan_option-Within r rest)
            (λ option t shorter.
              parse_from-total fuel t (insert (option.0) (option.1) o)
                (omega (arith, enough, shorter, skip_spaces-shorter s r rest more))))
  ]

  -- Whatever the string, parseOpts ends, with the options or with an error: the fuel of one round for
  -- each code point and one more is enough.
  pub parse_opts-total :
      (name : Bytes) (o : Table Bytes)
      → ((options : Table Bytes) × (parse_opts is_space name o ≡ ok options))
        ⊎ ((err : DsnError) × (parse_opts is_space name o ≡ fail err))
  unfolding parse_opts
  parse_opts-total name o =
      ended (parse_opts is_space name o) (parse_from-total (suc (length name)) name o (omega arith))
    where
      ended :
          (found : Parsed (Table Bytes))
          → found ≢ panic
          → ((options : Table Bytes) × (found ≡ ok options))
            ⊎ ((err : DsnError) × (found ≡ fail err))
      ended (ok options) h = inl (options, refl)
      ended (fail err) h = inr (err, refl)
      ended panic h = absurd (h refl)
