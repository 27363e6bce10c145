-- ===== src/Rdb/Dsn/RoundTrip.antt =====
-- Options that are written with quotes are read back by parseOpts of
-- internal/rdb/internal/driver/dsn.go.
use issue.Base.{
  ◌≡◌, refl, ◌∙◌, sym, ap, ◌≤◌, ◌<◌, ℕ, zero, suc, Bool, true, false, ◌||◌, List, [], ◌∷◌, ◌++◌,
  append_assoc, append-nil, Bytes, some, ◌==◌, length, length-append, All, ok, if◌then◌else◌,
  Bool-cases, inl, inr, arith,
}
use issue.Base.Table.{Table, insert}
use issue.Rdb.Dsn.{
  skip_spaces, scan_key, find_equals, scan_quoted, value_from, after_key, scan_option, parse_from,
  parse_opts,
}

-- A quote or a backslash is written behind a backslash.
abbrev pub escaped : Bytes → Bytes
escaped [] = []
escaped (c ∷ v) = if c == b'\'' || c == b'\\' then b'\\' ∷ c ∷ escaped v else c ∷ escaped v

-- key='value', a space, and the rest
abbrev pub print_option : Bytes × Bytes → Bytes → Bytes
print_option (key, value) rest = key ++ (b'=' ∷ b'\'' ∷ (escaped value ++ (b'\'' ∷ b' ' ∷ rest)))

abbrev pub print_options : List (Bytes × Bytes) → Bytes
print_options [] = []
print_options (o ∷ os) = print_option o (print_options os)

-- What the options leave in a table, one after another.
abbrev pub inserted : List (Bytes × Bytes) → Table Bytes → Table Bytes
inserted [] o = o
inserted ((key, value) ∷ os) o = inserted os (insert key value o)

scan_quoted-plain :
    (val : Bytes) (c : ℕ) (s : Bytes)
    → (c == b'\'') ≡ false
    → (c == b'\\') ≡ false
    → scan_quoted val (c ∷ s) ≡ scan_quoted (val ++ c ∷ []) s
unfolding scan_quoted
scan_quoted-plain val c [] h g = rw h refl
scan_quoted-plain val c (d ∷ s) h g = rw (h, g) refl

scan_quoted-escaped :
    (val : Bytes) (c : ℕ) (s : Bytes)
    → scan_quoted val (b'\\' ∷ c ∷ s) ≡ scan_quoted (val ++ c ∷ []) s
unfolding scan_quoted
scan_quoted-escaped val c s = refl

scan_quoted-end : (val s : Bytes) → scan_quoted val (b'\'' ∷ s) ≡ ok (val, s)
unfolding scan_quoted
scan_quoted-end val [] = refl
scan_quoted-end val (d ∷ s) = refl

or-false : (a b : Bool) → (a || b) ≡ false → (a ≡ false) × (b ≡ false)
or-false true b h = absurd (cc h)
or-false false b h = (refl, h)

scan_quoted-value : (val v s : Bytes) → scan_quoted val (escaped v ++ b'\'' ∷ s) ≡ ok (val ++ v, s)
scan_quoted-value val [] s = scan_quoted-end val s ∙ ap (λ w. ok (w, s)) (sym (append-nil val))
scan_quoted-value val (c ∷ v) s = elim (Bool-cases (c == b'\'' || c == b'\\')) [
  | inl special ↦ rw special (
      scan_quoted-escaped val c (escaped v ++ b'\'' ∷ s)
      ∙ scan_quoted-value (val ++ c ∷ []) v s
      ∙ ap (λ w. ok (w, s)) (append_assoc val (c ∷ []) v))
  | inr plain ↦
      let parts = or-false (c == b'\'') (c == b'\\') plain in
      rw plain (
        scan_quoted-plain val c (escaped v ++ b'\'' ∷ s) (parts.0) (parts.1)
        ∙ scan_quoted-value (val ++ c ∷ []) v s
        ∙ ap (λ w. ok (w, s)) (append_assoc val (c ∷ []) v))
]

or_true : (b : Bool) → (b || true) ≡ true
or_true true = refl
or_true false = refl

module _ (is_space : ℕ → Bool) where
  -- A code point of a key.
  abbrev pub InKey : ℕ → Type 0
  InKey c = (is_space c || c == b'=') ≡ false

  -- A key has one code point at least.
  abbrev pub IsKey : Bytes × Bytes → Type 0
  IsKey ([], value) = ⊥
  IsKey (c ∷ key, value) = InKey c × All InKey key

  scan_key-equals : (key rest : Bytes) → scan_key is_space key b'=' rest ≡ (key, some b'=', rest)
  unfolding scan_key
  scan_key-equals key [] = rw (or_true (is_space b'=')) refl
  scan_key-equals key (c ∷ rest) = rw (or_true (is_space b'=')) refl

  scan_key-key :
      (key : Bytes) (r : ℕ) (ks rest : Bytes)
      → InKey r
      → All InKey ks
      → scan_key is_space key r (ks ++ (b'=' ∷ rest)) ≡ (key ++ r ∷ ks, some b'=', rest)
  unfolding scan_key
  scan_key-key key r [] rest here h = rw here (scan_key-equals (key ++ r ∷ []) rest)
  scan_key-key key r (c ∷ ks) rest here (next, h) = rw here (
      scan_key-key (key ++ r ∷ []) c ks rest next h
      ∙ ap (λ k. (k, some b'=', rest)) (append_assoc key (r ∷ []) (c ∷ ks)))

  module _ (space : is_space b' ' ≡ true) (quote : is_space b'\'' ≡ false) where
    scan_option-printed :
        (r : ℕ) (ks value rest : Bytes)
        → InKey r
        → All InKey ks
        → scan_option is_space r (ks ++ (b'=' ∷ b'\'' ∷ (escaped value ++ (b'\'' ∷ b' ' ∷ rest))))
          ≡ ok ((r ∷ ks, value), b' ' ∷ rest)
    unfolding scan_option find_equals after_key value_from skip_spaces
    scan_option-printed r ks value rest here h =
        rw (scan_key-key [] r ks (b'\'' ∷ (escaped value ++ (b'\'' ∷ b' ' ∷ rest))) here h)
          (rw quote (rw (scan_quoted-value [] value (b' ' ∷ rest)) refl))

    parse_from-space :
        (fuel : ℕ) (s : Bytes) (o : Table Bytes)
        → parse_from is_space fuel (b' ' ∷ s) o ≡ parse_from is_space fuel s o
    unfolding parse_from skip_spaces
    parse_from-space zero s o = refl
    parse_from-space (suc fuel) s o = rw (space, parse_from) refl

    key-start : (c : ℕ) → InKey c → is_space c ≡ false
    key-start c h = (or-false (is_space c) (c == b'=') h).0

    parse_from-printed :
        (fuel : ℕ) (os : List (Bytes × Bytes)) (o : Table Bytes)
        → All IsKey os
        → length os < fuel
        → parse_from is_space fuel (print_options os) o ≡ ok (inserted os o)
    unfolding parse_from skip_spaces
    parse_from-printed zero os o h enough = elim enough [ ]
    parse_from-printed (suc fuel) [] o h enough = refl
    parse_from-printed (suc fuel) (([], value) ∷ os) o (h, hs) enough = elim h [ ]
    parse_from-printed (suc fuel) ((c ∷ ks, value) ∷ os) o ((here, h), hs) enough =
        rw (key-start c here, parse_from)
          (rw (scan_option-printed c ks value (print_options os) here h) (
            parse_from-space fuel (print_options os) (insert (c ∷ ks) value o)
            ∙ parse_from-printed fuel os (insert (c ∷ ks) value o) hs (omega (arith, enough))))

    length-print_options : (os : List (Bytes × Bytes)) → length os ≤ length (print_options os)
    length-print_options [] = omega arith
    length-print_options ((key, value) ∷ os) =
        let rest = print_options os in
        let behind = escaped value ++ (b'\'' ∷ b' ' ∷ rest) in
        omega (
          arith,
          length-print_options os,
          length-append key (b'=' ∷ b'\'' ∷ behind),
          length-append (escaped value) (b'\'' ∷ b' ' ∷ rest),
        )

    -- Options that are written as key='value' with a backslash in front of each quote and backslash
    -- of a value, and a space behind each, are read back by parseOpts, the later ones over earlier
    -- ones of the same key: where a key has one code point at least, and no space or equals sign.
    pub parse_opts-print_options :
        (os : List (Bytes × Bytes)) (o : Table Bytes)
        → All IsKey os
        → parse_opts is_space (print_options os) o ≡ ok (inserted os o)
    unfolding parse_opts
    parse_opts-print_options os o h =
        parse_from-printed (suc (length (print_options os))) os o h
          (omega (arith, length-print_options os))
