-- ===== src/Concurrent/Cache.antt =====
-- `TimeoutCache`, `MapWithConstructor` and `Map` of internal/concurrent. Each method of a map holds its
-- lock and is one step. `Get` of a `TimeoutCache` takes two such steps, around the fetch; here it runs
-- alone.
pub mod Expiry
use issue.Base.{
  ℕ, ◌==◌, Bool, true, false, List, [], ◌∷◌, map, Bytes, length, Option, none, some, Result, ok,
  fail, panic, if◌then◌else◌,
}
use issue.Base.Int.{ltb_ℤ}
use issue.Base.Table.{Table, lookup, insert, delete}
use issue.Rate.Window.{Time}

module _ {ℓ} {V : Type ℓ} where
  -- The loop of `InitBulk`, over lists of the same length.
  unfoldable pub fill : List Bytes → List V → Table V → Table V
  fill [] values cache = cache
  fill (k ∷ keys) [] cache = cache
  fill (k ∷ keys) (v ∷ values) cache = fill keys values (insert k v cache)

  -- `InitBulk`; `none` is its panic.
  unfoldable pub init_bulk : List Bytes → List V → Option (Table V)
  unfolding fill
  init_bulk keys values = if length keys == length values then some (fill keys values []) else none

  unfoldable pub constructed : Table V → Bytes → V → Option V → Table V × V
  constructed cache key new none = (insert key new cache, new)
  constructed cache key new (some v) = (cache, v)

  -- `Get` of a `MapWithConstructor`, with what the constructor would return.
  unfoldable pub get_or_construct : Table V → Bytes → V → Table V × V
  unfolding constructed
  get_or_construct cache key new = constructed cache key new (lookup key cache)

-- `cacheValue`
pub record CacheValue {ℓ} (V : Type ℓ) : Type ℓ where
  pub val : V
  pub valid_until : Time

abbrev pub TimeoutCache {ℓ} : Type ℓ → Type ℓ
TimeoutCache V = Table (CacheValue V)

-- A call of `Get`: its key, the time that `now` returns, what the fetcher would return (`none` is an
-- error), and the time that `validUntil` would return.
pub record Call {ℓ} (V : Type ℓ) : Type ℓ where
  pub key : Bytes
  pub now : Time
  pub fetched : Option V
  pub until : Time

-- The cache behind a call, its result, and whether the fetcher was called.
pub record Reply {ℓ} (V : Type ℓ) : Type ℓ where
  pub cache : TimeoutCache V
  pub result : Option V
  pub fetches : Bool

module _ {ℓ} {V : Type ℓ} where
  unfoldable pub fetch : TimeoutCache V → Call V → Option V → Reply V
  fetch cache c none = record { cache = cache; result = none; fetches = true }
  fetch cache c (some val) = record {
    cache = insert c.key (record { val = val; valid_until = c.until }) cache;
    result = some val;
    fetches = true;
  }

  unfoldable pub get_known : TimeoutCache V → Call V → Option (CacheValue V) → Reply V
  unfolding fetch
  get_known cache c none = fetch cache c c.fetched
  get_known cache c (some value) =
      if ltb_ℤ c.now value.valid_until
      then record { cache = cache; result = some value.val; fetches = false }
      else fetch cache c c.fetched

  -- `Get`
  unfoldable pub get : TimeoutCache V → Call V → Reply V
  unfolding get_known
  get cache c = get_known cache c (lookup c.key cache)

  -- The cache after the calls, one after another.
  unfoldable pub get_all : TimeoutCache V → List (Call V) → TimeoutCache V
  unfolding get
  get_all cache [] = cache
  get_all cache (c ∷ cs) = get_all (get cache c).cache cs
