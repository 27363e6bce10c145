-- ===== src/Concurrent/Cache/Expiry.antt =====
-- How long a `TimeoutCache` of internal/concurrent/timeout_cache.go keeps a value.
use issue.Base.{
  ◌≡◌, ◌≢◌, refl, ap, ◌∙◌, true, false, List, [], ◌∷◌, Bytes, ◌=ᵇ◌, =ᵇ_iff, =ᵇ_refl, Option, none,
  some, arith, Bool-cases, inl, inr, All,
}
use issue.Base.Int.{ltb_ℤ}
use issue.Base.Table.{lookup, lookup-insert}
use issue.Rate.Window.{Time}
use issue.Concurrent.Cache.{CacheValue, TimeoutCache, Call, fetch, get_known, get, get_all}

module _ {ℓ} {V : Type ℓ} where
  -- The call is of another key, or comes before the time.
  abbrev pub IsEarly : Bytes → Time → Call V → Type 0
  IsEarly key time c = c.key ≡ key → ltb_ℤ c.now time ≡ true

  lookup-fetch_ne :
      (cache : TimeoutCache V) (c : Call V) (o : Option V) (key : Bytes)
      → c.key ≢ key
      → lookup key (fetch cache c o).cache ≡ lookup key cache
  unfolding fetch
  lookup-fetch_ne cache c none key n = refl
  lookup-fetch_ne cache c (some val) key n =
      let other : (c.key =ᵇ key) ≡ false = ground (arith, n, =ᵇ_iff c.key key) in
      lookup-insert c.key key (record { val = val; valid_until = c.until }) cache ∙ rw other refl

  lookup-get_known :
      (cache : TimeoutCache V) (c : Call V) (known : Option (CacheValue V)) (key : Bytes)
      → c.key ≢ key
      → lookup key (get_known cache c known).cache ≡ lookup key cache
  unfolding get_known
  lookup-get_known cache c none key n = lookup-fetch_ne cache c c.fetched key n
  lookup-get_known cache c (some value) key n = elim (Bool-cases (ltb_ℤ c.now value.valid_until)) [
    | inl fresh ↦ rw fresh refl
    | inr stale ↦ rw stale (lookup-fetch_ne cache c c.fetched key n)
  ]

  lookup-get_ne :
      (cache : TimeoutCache V) (c : Call V) (key : Bytes)
      → c.key ≢ key
      → lookup key (get cache c).cache ≡ lookup key cache
  unfolding get
  lookup-get_ne cache c key n = lookup-get_known cache c (lookup c.key cache) key n

  hit :
      (cache : TimeoutCache V) (c : Call V) (value : CacheValue V)
      → lookup c.key cache ≡ some value
      → ltb_ℤ c.now value.valid_until ≡ true
      → get cache c ≡ record { cache = cache; result = some value.val; fetches = false }
  unfolding get get_known
  hit cache c value h early = rw (h, early) refl

  kept :
      (cache : TimeoutCache V) (c : Call V) (key : Bytes) (value : CacheValue V)
      → lookup key cache ≡ some value
      → IsEarly key value.valid_until c
      → lookup key (get cache c).cache ≡ some value
  kept cache c key value h early = elim (Bool-cases (c.key =ᵇ key)) [
    | inl same ↦
        let equal : c.key ≡ key = (=ᵇ_iff c.key key).0 same in
        let found : lookup c.key cache ≡ some value = ap (λ k. lookup k cache) equal ∙ h in
        ap (λ r. lookup key r.cache) (hit cache c value found (early equal)) ∙ h
    | inr other ↦
        let differs : c.key ≢ key = λ e. cc (other, (=ᵇ_iff c.key key).1 e) in
        lookup-get_ne cache c key differs ∙ h
  ]

  kept_all :
      (cache : TimeoutCache V) (calls : List (Call V)) (key : Bytes) (value : CacheValue V)
      → lookup key cache ≡ some value
      → All (IsEarly key value.valid_until) calls
      → lookup key (get_all cache calls) ≡ some value
  unfolding get_all
  kept_all cache [] key value h early = h
  kept_all cache (c ∷ calls) key value h (early, later) =
      kept_all (get cache c).cache calls key value (kept cache c key value h early) later

  fetched-fetch :
      (cache : TimeoutCache V) (c : Call V) (val : V)
      → lookup c.key (fetch cache c (some val)).cache
        ≡ some (record { val = val; valid_until = c.until })
  unfolding fetch
  fetched-fetch cache c val =
      lookup-insert c.key c.key (record { val = val; valid_until = c.until }) cache
      ∙ rw (=ᵇ_refl c.key) refl

  fetched_known :
      (cache : TimeoutCache V) (c : Call V) (val : V) (known : Option (CacheValue V))
      → (get_known cache c known).fetches ≡ true
      → c.fetched ≡ some val
      → lookup c.key (get_known cache c known).cache
        ≡ some (record { val = val; valid_until = c.until })
  unfolding get_known
  fetched_known cache c val none f h = rw h (fetched-fetch cache c val)
  fetched_known cache c val (some value) f h = elim (Bool-cases (ltb_ℤ c.now value.valid_until)) [
    | inl fresh ↦ absurd (cc (rw fresh at f))
    | inr stale ↦ rw (stale, h) (fetched-fetch cache c val)
  ]

  fetched_lem :
      (cache : TimeoutCache V) (c : Call V) (val : V)
      → (get cache c).fetches ≡ true
      → c.fetched ≡ some val
      → lookup c.key (get cache c).cache ≡ some (record { val = val; valid_until = c.until })
  unfolding get
  fetched_lem cache c val f h = fetched_known cache c val (lookup c.key cache) f h

  -- A value that was fetched is the answer to every call of its key before the time that it is valid
  -- until, with no further fetch and no change of the cache, whatever calls of other keys, and earlier
  -- calls of the same key, come in between.
  pub get-valid :
      (cache : TimeoutCache V) (first : Call V) (val : V) (calls : List (Call V)) (last : Call V)
      → (get cache first).fetches ≡ true
      → first.fetched ≡ some val
      → All (IsEarly first.key first.until) calls
      → last.key ≡ first.key
      → ltb_ℤ last.now first.until ≡ true
      → get (get_all (get cache first).cache calls) last ≡ record {
        cache = get_all (get cache first).cache calls;
        result = some val;
        fetches = false;
      }
  get-valid cache first val calls last f h early same before =
      let value : CacheValue V = record { val = val; valid_until = first.until } in
      let there : lookup first.key (get_all (get cache first).cache calls) ≡ some value =
        kept_all (get cache first).cache calls first.key value (fetched_lem cache first val f h)
          early in
      hit (get_all (get cache first).cache calls) last value
        (ap (λ k. lookup k (get_all (get cache first).cache calls)) same ∙ there) before
