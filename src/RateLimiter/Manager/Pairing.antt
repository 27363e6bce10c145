-- ===== src/RateLimiter/Manager/Pairing.antt =====
-- Which limiter `parseConfig` (ratelimiter/v2/rate_limiter.go) puts at the index of which pattern.
use native.Mathlib.Nat.{zero-add}
use issue.Base.{
  ℕ, zero, suc, ◌+◌, ◌≤◌, ◌≡◌, refl, sym, ap, subst, ◌∙◌, ◌⊎◌, inl, inr, List, [], ◌∷◌, arith,
  Bytes, length, none, All, All-map, Result, ok, fail, panic,
}
use issue.Rate.Limiter.{WindowConfig, Limiter, new_limiter}
use issue.RateLimiter.Pattern.{Pattern}
use issue.RateLimiter.Parse.{PatternError, new_pattern}
use issue.RateLimiter.Manager.{
  Manager, done, Scan, conflicts, insert_at, scan_panics, scan, insert_elem, place, insert_pattern,
  load_parsed, load_path, load_paths,
}
use issue.RateLimiter.Manager.Loading.{scan-place, if_done-done}

-- The pattern and the limiter stand at the same index.
abbrev pub AtOneIndex : Pattern → Limiter → List Pattern → List Limiter → Type 0
AtOneIndex p l [] ls = ⊥
AtOneIndex p l (q ∷ qs) [] = ⊥
AtOneIndex p l (q ∷ qs) (k ∷ ks) = ((q ≡ p) × (k ≡ l)) ⊎ AtOneIndex p l qs ks

-- The lists are of one length, and a pattern and the limiter at its index are related.
module _ (P : Pattern → Limiter → Type 0) where
  abbrev pub AllPaired : List Pattern → List Limiter → Type 0
  AllPaired [] [] = Unit
  AllPaired [] (l ∷ ls) = ⊥
  AllPaired (p ∷ ps) [] = ⊥
  AllPaired (p ∷ ps) (l ∷ ls) = P p l × AllPaired ps ls

  AllPaired-length :
      (ps : List Pattern) (ls : List Limiter) → AllPaired ps ls → length ps ≡ length ls
  AllPaired-length [] [] h = refl
  AllPaired-length [] (l ∷ ls) h = absurd h
  AllPaired-length (p ∷ ps) [] h = absurd h
  AllPaired-length (p ∷ ps) (l ∷ ls) (here, h) = ap suc (AllPaired-length ps ls h)

  AllPaired-insert :
      (i : ℕ) (p : Pattern) (l : Limiter) (ps : List Pattern) (ls : List Limiter)
      → i ≤ length ps
      → P p l
      → AllPaired ps ls
      → AllPaired (insert_elem i p ps) (insert_elem i l ls)
  unfolding insert_elem
  AllPaired-insert zero p l ps ls within new h = (new, h)
  AllPaired-insert (suc i) p l [] ls within new h = absurd (omega (arith, within))
  AllPaired-insert (suc i) p l (q ∷ qs) [] within new h = absurd h
  AllPaired-insert (suc i) p l (q ∷ qs) (k ∷ ks) within new (here, h) =
      (here, AllPaired-insert i p l qs ks (omega (arith, within)) new h)

AtOneIndex-new :
    (i : ℕ) (p : Pattern) (l : Limiter) (ps : List Pattern) (ls : List Limiter)
    → i ≤ length ps
    → length ps ≡ length ls
    → AtOneIndex p l (insert_elem i p ps) (insert_elem i l ls)
unfolding insert_elem
AtOneIndex-new zero p l ps ls within same = inl (refl, refl)
AtOneIndex-new (suc i) p l [] ls within same = absurd (omega (arith, within))
AtOneIndex-new (suc i) p l (q ∷ qs) [] within same = absurd (omega (arith, same))
AtOneIndex-new (suc i) p l (q ∷ qs) (k ∷ ks) within same =
    inr (AtOneIndex-new i p l qs ks (omega (arith, within)) (omega (arith, same)))

AtOneIndex-kept :
    (i : ℕ) (p q : Pattern) (l k : Limiter) (ps : List Pattern) (ls : List Limiter)
    → AtOneIndex q k ps ls
    → AtOneIndex q k (insert_elem i p ps) (insert_elem i l ls)
unfolding insert_elem
AtOneIndex-kept zero p q l k ps ls h = inr h
AtOneIndex-kept (suc i) p q l k [] ls h = absurd h
AtOneIndex-kept (suc i) p q l k (q' ∷ ps) [] h = absurd h
AtOneIndex-kept (suc i) p q l k (q' ∷ ps) (k' ∷ ls) (inl h) = inl h
AtOneIndex-kept (suc i) p q l k (q' ∷ ps) (k' ∷ ls) (inr h) =
    inr (AtOneIndex-kept i p q l k ps ls h)

-- The path parses, and the limiter for its windows stands at the index of its pattern.
abbrev pub HasLimiter : Manager → Bytes × List WindowConfig → Type 0
HasLimiter m (path, windows) =
    (p : Pattern) × (new_pattern path ≡ ok p)
    × AtOneIndex p (new_limiter windows) m.patterns m.limiters

-- The pattern and the limiter come from one path of the configuration.
abbrev pub IsConfigured : List (Bytes × List WindowConfig) → Pattern → Limiter → Type 0
IsConfigured [] p l = ⊥
IsConfigured ((path, windows) ∷ rest) p l =
    ((new_pattern path ≡ ok p) × (l ≡ new_limiter windows)) ⊎ IsConfigured rest p l

-- The patterns and the limiters are those of the paths, each limiter at the index of its pattern.
pub record IsInstalled (paths : List (Bytes × List WindowConfig)) (m : Manager) : Type 0 where
  pub each_path : All (HasLimiter m) paths
  pub each_index : AllPaired (IsConfigured paths) m.patterns m.limiters

-- What one round that ends well does to the two lists: it inserts at one index.
abbrev Inserted : Manager → Pattern → List WindowConfig → Manager → Type 0
Inserted m p windows m' =
    (k : ℕ) × (k ≤ length m.patterns)
    × (m'.patterns ≡ insert_elem k p m.patterns)
    × (m'.limiters ≡ insert_elem k (new_limiter windows) m.limiters)

insert_pattern-inserts :
    (m : Manager) (p : Pattern) (windows : List WindowConfig) (found : Scan)
    → scan p m.patterns 0 none ≡ found
    → (insert_pattern m p windows found).1 ≡ done
    → Inserted m p windows (insert_pattern m p windows found).0
unfolding insert_pattern
insert_pattern-inserts m p windows scan_panics e h = absurd (cc h)
insert_pattern-inserts m p windows (conflicts q) e h = absurd (cc h)
insert_pattern-inserts m p windows (insert_at found) e h =
    let (k, at, inserted, within) = scan-place p m.patterns 0 found e in
    let here : place found (length m.patterns) ≡ k =
      subst (λ n. place found n ≡ 0 + k) (zero-add (length m.patterns)) at ∙ zero-add k in
    (
      k,
      within,
      ap (λ i. insert_elem i p m.patterns) here,
      ap (λ i. insert_elem i (new_limiter windows) m.limiters) here,
    )

load_parsed-inserts :
    (m : Manager) (path : Bytes) (windows : List WindowConfig) (r : Result PatternError Pattern)
    → (load_parsed m path windows r).1 ≡ done
    → (p : Pattern) × (r ≡ ok p) × Inserted m p windows (load_parsed m path windows r).0
unfolding load_parsed
load_parsed-inserts m path windows panic h = absurd (cc h)
load_parsed-inserts m path windows (fail e) h = absurd (cc h)
load_parsed-inserts m path windows (ok p) h =
    (p, refl, insert_pattern-inserts m p windows (scan p m.patterns 0 none) refl h)

load_path-inserts :
    (m : Manager) (path : Bytes) (windows : List WindowConfig)
    → (load_path m path windows).1 ≡ done
    → (p : Pattern) × (new_pattern path ≡ ok p) × Inserted m p windows (load_path m path windows).0
unfolding load_path
load_path-inserts m path windows h = load_parsed-inserts m path windows (new_pattern path) h

module _ (m m' : Manager) (p : Pattern) (windows : List WindowConfig)
    (inserted : Inserted m p windows m') where
  Inserted-kept :
      (q : Pattern) (k : Limiter)
      → AtOneIndex q k m.patterns m.limiters
      → AtOneIndex q k m'.patterns m'.limiters
  Inserted-kept q k at =
      let (i, within, patterns, limiters) = inserted in
      rw (patterns, limiters)
        (AtOneIndex-kept i p q (new_limiter windows) k m.patterns m.limiters at)

  Inserted-new :
      length m.patterns ≡ length m.limiters
      → AtOneIndex p (new_limiter windows) m'.patterns m'.limiters
  Inserted-new same =
      let (i, within, patterns, limiters) = inserted in
      rw (patterns, limiters)
        (AtOneIndex-new i p (new_limiter windows) m.patterns m.limiters within same)

  Inserted-AllPaired :
      (P : Pattern → Limiter → Type 0)
      → P p (new_limiter windows)
      → AllPaired P m.patterns m.limiters
      → AllPaired P m'.patterns m'.limiters
  Inserted-AllPaired P fit paired =
      let (i, within, patterns, limiters) = inserted in
      rw (patterns, limiters)
        (AllPaired-insert P i p (new_limiter windows) m.patterns m.limiters within fit paired)

module _ (P : Pattern → Limiter → Type 0) where
  -- What the path parses to is related to the limiter for its windows.
  abbrev Fits : Bytes × List WindowConfig → Type 0
  Fits (path, windows) = (p : Pattern) → new_pattern path ≡ ok p → P p (new_limiter windows)

  -- The loop over the paths: each gets its limiter, no limiter leaves its pattern, and the rest of
  -- the lists is what it was.
  load_paths-HasLimiter :
      (m : Manager) (paths : List (Bytes × List WindowConfig))
      → All Fits paths
      → AllPaired P m.patterns m.limiters
      → (load_paths m paths).1 ≡ done
      → All (HasLimiter (load_paths m paths).0) paths
        × AllPaired P (load_paths m paths).0.patterns (load_paths m paths).0.limiters
        × ((q : Pattern) (k : Limiter)
            → AtOneIndex q k m.patterns m.limiters
            → AtOneIndex q k (load_paths m paths).0.patterns (load_paths m paths).0.limiters)
  unfolding load_paths
  load_paths-HasLimiter m [] fits paired h = (tt, paired, λ q k at. at)
  load_paths-HasLimiter m ((path, windows) ∷ rest) (fit, fits) paired h =
      let (first, same_end) =
        if_done-done (load_path m path windows) (λ m'. load_paths m' rest) h in
      let m' = (load_path m path windows).0 in
      let (p, parsed, inserted) = load_path-inserts m path windows first in
      let same = AllPaired-length P m.patterns m.limiters paired in
      let new = Inserted-new m m' p windows inserted same in
      let paired' = Inserted-AllPaired m m' p windows inserted P (fit p parsed) paired in
      let (each, paired'', kept) =
        load_paths-HasLimiter m' rest fits paired' (ap (λ r. r.1) (sym same_end) ∙ h) in
      subst
        (λ r.
          All (HasLimiter r.0) ((path, windows) ∷ rest)
          × AllPaired P r.0.patterns r.0.limiters
          × ((q : Pattern) (l : Limiter)
              → AtOneIndex q l m.patterns m.limiters
              → AtOneIndex q l r.0.patterns r.0.limiters))
        (sym same_end)
        (
          ((p, parsed, kept p (new_limiter windows) new), each),
          paired'',
          λ q l at. kept q l (Inserted-kept m m' p windows inserted q l at),
        )

Fits-IsConfigured :
    (paths : List (Bytes × List WindowConfig)) → All (Fits (IsConfigured paths)) paths
Fits-IsConfigured [] = tt
Fits-IsConfigured ((path, windows) ∷ rest) = (
  λ p parsed. inl (parsed, refl),
  All-map (λ entry fit p parsed. inr (fit p parsed)) rest (Fits-IsConfigured rest),
)

pub load_paths-IsInstalled :
    (m : Manager) (paths : List (Bytes × List WindowConfig))
    → m.patterns ≡ []
    → m.limiters ≡ []
    → (load_paths m paths).1 ≡ done
    → IsInstalled paths (load_paths m paths).0
load_paths-IsInstalled m paths no_patterns no_limiters h =
    let (each, paired, _) =
      load_paths-HasLimiter (IsConfigured paths) m paths (Fits-IsConfigured paths)
        (rw (no_patterns, no_limiters) tt) h in
    record { each_path = each; each_index = paired }
