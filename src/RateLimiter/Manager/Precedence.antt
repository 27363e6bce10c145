-- ===== src/RateLimiter/Manager/Precedence.antt =====
-- The order of the patterns that `parseConfig` (ratelimiter/v2/rate_limiter.go) builds up.
use native.Mathlib.Nat.{zero-add}
use issue.Base.{
  ℕ, suc, ◌+◌, ◌≡◌, ◌≢◌, refl, sym, ap, subst, ◌∙◌, ◌⊎◌, inl, inr, true, false, List, [], ◌∷◌,
  arith, Bytes, length, Option, none, some, Bool-cases, All, All-map, Result, ok, fail, panic,
}
use issue.Rate.Limiter.{WindowConfig, new_limiter}
use issue.RateLimiter.Pattern.{
  Pattern, Relationship, equivalent, more_general, more_specific, disjoint, overlaps,
  compare_paths_and_methods,
}
use issue.RateLimiter.Pattern.Relations.{Holds}
use issue.RateLimiter.Pattern.Soundness.{IsProper, Accepts, compare_sound}
use issue.RateLimiter.Parse.{PatternError, new_pattern}
use issue.RateLimiter.Parse.WellFormed.{new_pattern-Outcome}
use issue.RateLimiter.Manager.{
  Config, Manager, Status, done, failed, hash_failed, Scan, conflicts, insert_at, scan_panics, scan,
  insert_elem, place, insert_pattern, load_parsed, load_path, load_paths, cleared, parse_config,
}
use issue.RateLimiter.Manager.Loading.{
  insert_before, is_more_specific, IsCompatible, scan-IsCompatible, scan-place, length-insert_elem,
  if_done-done,
}
use issue.RateLimiter.Manager.Pairing.{IsInstalled, load_paths-IsInstalled}

-- Every request that matches the first pattern matches the second too, or none does.
abbrev pub Narrower : Pattern → Pattern → Type 0
Narrower p q =
    ((method : Bytes) (path : List Bytes) → Accepts p method path → Accepts q method path)
    ⊎ ((method : Bytes) (path : List Bytes) → Accepts p method path → Accepts q method path → ⊥)

-- Each pattern is narrower than those behind it.
abbrev pub Ordered : List Pattern → Type 0
Ordered [] = Unit
Ordered (p ∷ ps) = All (Narrower p) ps × Ordered ps

Narrower-trans :
    (p q s : Pattern)
    → ((method : Bytes) (path : List Bytes) → Accepts p method path → Accepts q method path)
    → Narrower q s
    → Narrower p s
Narrower-trans p q s f (inl g) = inl (λ m x a. g m x (f m x a))
Narrower-trans p q s f (inr g) = inr (λ m x a b. g m x (f m x a) b)

-- What the relationship of a new pattern to an old one says of the two.
relation_meaning :
    (p q : Pattern)
    → IsProper p
    → IsProper q
    → IsCompatible p q
    → ((is_more_specific (compare_paths_and_methods p q) ≡ true)
        × ((method : Bytes) (path : List Bytes) → Accepts p method path → Accepts q method path))
      ⊎ ((is_more_specific (compare_paths_and_methods p q) ≡ false) × Narrower q p)
relation_meaning p q wp wq c =
    let (r, e, holds) = compare_sound p q wp wq in
    let same_relation : r ≡ c.relation = cc (e, c.compared) in
    by_relation r e holds (λ k. c.no_equivalent (sym same_relation ∙ k))
      (λ k. c.no_overlap (sym same_relation ∙ k))
  where
    by_relation :
        (r : Relationship)
        → compare_paths_and_methods p q ≡ some r
        → ((method : Bytes) (path : List Bytes)
            → Holds r (Accepts p method path) (Accepts q method path))
        → r ≢ equivalent
        → r ≢ overlaps
        → ((is_more_specific (compare_paths_and_methods p q) ≡ true)
            × ((method : Bytes) (path : List Bytes)
                → Accepts p method path
                → Accepts q method path))
          ⊎ ((is_more_specific (compare_paths_and_methods p q) ≡ false) × Narrower q p)
    by_relation equivalent e h a b = absurd (a refl)
    by_relation overlaps e h a b = absurd (b refl)
    by_relation more_specific e h a b = inl (rw e (unfold is_more_specific in refl), h)
    by_relation more_general e h a b = inr (rw e (unfold is_more_specific in refl), inl h)
    by_relation disjoint e h a b =
        inr (rw e (unfold is_more_specific in refl), inr (λ m x k l. h m x l k))

insert_before-All :
    (P : Pattern → Type 0) (p : Pattern) (qs : List Pattern)
    → P p
    → All P qs
    → All P (insert_before p qs)
unfolding insert_before
insert_before-All P p [] h hs = (h, tt)
insert_before-All P p (q ∷ qs) h (hq, hs) =
    elim (Bool-cases (is_more_specific (compare_paths_and_methods p q))) [
      | inl e ↦ rw e (h, (hq, hs))
      | inr e ↦ rw e (hq, insert_before-All P p qs h hs)
    ]

insert_before-Ordered :
    (p : Pattern) (qs : List Pattern)
    → IsProper p
    → All IsProper qs
    → All (IsCompatible p) qs
    → Ordered qs
    → Ordered (insert_before p qs)
unfolding insert_before
insert_before-Ordered p [] wp ws cs o = (tt, tt)
insert_before-Ordered p (q ∷ qs) wp (wq, ws) (c, cs) (oq, o) = elim (relation_meaning p q wp wq c) [
  | inl (e, f) ↦ rw e ((inl f, All-map (λ s. Narrower-trans p q s f) qs oq), (oq, o))
  | inr (e, n) ↦
      rw e (insert_before-All (Narrower q) p qs n oq, insert_before-Ordered p qs wp ws cs o)
]

-- A loaded manager: a limiter for each pattern, the patterns proper and in order of precedence.
pub record IsLoaded (m : Manager) : Type 0 where
  pub paired : length m.limiters ≡ length m.patterns
  pub proper : All IsProper m.patterns
  pub ordered : Ordered m.patterns

-- A path of the configuration that is not the root: what it parses to has a segment.
abbrev pub HasSegment : Bytes × List WindowConfig → Type 0
HasSegment (path, windows) = (q : Pattern) → new_pattern path ≡ ok q → q.segments ≢ []

insert-IsLoaded :
    (m : Manager) (p : Pattern) (windows : List WindowConfig) (found : Scan)
    → scan p m.patterns 0 none ≡ found
    → IsLoaded m
    → IsProper p
    → (insert_pattern m p windows found).1 ≡ done
    → IsLoaded (insert_pattern m p windows found).0
      × (length (insert_pattern m p windows found).0.patterns ≡ suc (length m.patterns))
unfolding insert_pattern
insert-IsLoaded m p windows scan_panics e w wp h = cc h
insert-IsLoaded m p windows (conflicts q) e w wp h = cc h
insert-IsLoaded m p windows (insert_at found) e w wp h =
    let (k, at, inserted, within) = scan-place p m.patterns 0 found e in
    let here : place found (length m.patterns) ≡ k =
      subst (λ n. place found n ≡ 0 + k) (zero-add (length m.patterns)) at ∙ zero-add k in
    let known = scan-IsCompatible p m.patterns 0 none found e in
    let longer = length-insert_elem k p m.patterns within in
    subst
      (λ i.
        IsLoaded (record m {
          patterns = insert_elem i p m.patterns;
          limiters = insert_elem i (new_limiter windows) m.limiters;
        })
        × (length (insert_elem i p m.patterns) ≡ suc (length m.patterns)))
      (sym here)
      (
        record {
          paired =
              length-insert_elem k (new_limiter windows) m.limiters
                (omega (arith, within, w.paired))
              ∙ ap suc w.paired
              ∙ sym longer;
          proper =
              subst (All IsProper) (sym inserted)
                (insert_before-All IsProper p m.patterns wp w.proper);
          ordered =
              subst Ordered (sym inserted)
                (insert_before-Ordered p m.patterns wp w.proper known w.ordered);
        },
        longer,
      )

load_parsed-IsLoaded :
    (m : Manager) (path : Bytes) (windows : List WindowConfig) (r : Result PatternError Pattern)
    → new_pattern path ≡ r
    → IsLoaded m
    → HasSegment (path, windows)
    → (load_parsed m path windows r).1 ≡ done
    → IsLoaded (load_parsed m path windows r).0
      × (length (load_parsed m path windows r).0.patterns ≡ suc (length m.patterns))
unfolding load_parsed
load_parsed-IsLoaded m path windows panic e w segs h = cc h
load_parsed-IsLoaded m path windows (fail x) e w segs h = cc h
load_parsed-IsLoaded m path windows (ok p) e w segs h =
    let parsed = (new_pattern-Outcome path p e).0 in
    insert-IsLoaded m p windows (scan p m.patterns 0 none) refl w
      (record { some_segment = segs p e; multi_last = parsed.multi_last }) h

load_path-IsLoaded :
    (m : Manager) (path : Bytes) (windows : List WindowConfig)
    → IsLoaded m
    → HasSegment (path, windows)
    → (load_path m path windows).1 ≡ done
    → IsLoaded (load_path m path windows).0
      × (length (load_path m path windows).0.patterns ≡ suc (length m.patterns))
unfolding load_path
load_path-IsLoaded m path windows = load_parsed-IsLoaded m path windows (new_pattern path) refl

load_paths-IsLoaded :
    (m : Manager) (paths : List (Bytes × List WindowConfig))
    → IsLoaded m
    → All HasSegment paths
    → (load_paths m paths).1 ≡ done
    → IsLoaded (load_paths m paths).0
      × (length (load_paths m paths).0.patterns ≡ length m.patterns + length paths)
unfolding load_paths
load_paths-IsLoaded m [] w segs h = (w, omega arith)
load_paths-IsLoaded m ((path, windows) ∷ rest) w (seg, segs) h =
    let (first, same_end) = if_done-done (load_path m path windows) (λ m'. load_paths m' rest) h in
    let (w', n) = load_path-IsLoaded m path windows w seg first in
    let (w'', n') =
      load_paths-IsLoaded (load_path m path windows).0 rest w' segs
        (ap (λ r. r.1) (sym same_end) ∙ h) in
    (
      subst (λ r. IsLoaded r.0) (sym same_end) w'',
      ap (λ r. length r.0.patterns) same_end ∙ n' ∙ omega (arith, n),
    )

-- A configuration that loads, and whose paths all have a segment, leaves a pattern and a limiter for
-- each path, whatever the order of the paths: the limiter for the windows of a path stands at the
-- index of what the path parses to, and each pattern and the limiter at its index come from one
-- path; each pattern stands before those that are wider, and no request that two patterns match is
-- missed by the wider one.
pub parse_config-IsLoaded :
    (config_hash : Config → Option ℕ) (m : Manager) (cfg : Config)
    → All HasSegment cfg.paths
    → (parse_config config_hash m cfg).1 ≡ done
    → IsLoaded (parse_config config_hash m cfg).0
      × (length (parse_config config_hash m cfg).0.patterns ≡ length cfg.paths)
      × IsInstalled cfg.paths (parse_config config_hash m cfg).0
unfolding parse_config
parse_config-IsLoaded config_hash m cfg segs h = by_hash (config_hash cfg) h
  where
    cleared-IsLoaded : (hash : ℕ) → IsLoaded (cleared cfg hash)
    cleared-IsLoaded hash = unfold cleared in record { paired = refl; proper = tt; ordered = tt }

    loaded : Option ℕ → Manager × Status
    loaded o = elim o [
      | none ↦ (m, failed hash_failed)
      | some hash ↦ load_paths (cleared cfg hash) cfg.paths
    ]

    by_hash :
        (o : Option ℕ)
        → (loaded o).1 ≡ done
        → IsLoaded (loaded o).0
          × (length (loaded o).0.patterns ≡ length cfg.paths)
          × IsInstalled cfg.paths (loaded o).0
    by_hash none k = absurd (cc k)
    by_hash (some hash) k =
        let (w, n) =
          load_paths-IsLoaded (cleared cfg hash) cfg.paths (cleared-IsLoaded hash) segs k in
        (
          w,
          n ∙ unfold cleared in zero-add (length cfg.paths),
          load_paths-IsInstalled (cleared cfg hash) cfg.paths (unfold cleared in refl)
              (unfold cleared in refl) k,
        )
