-- ===== src/Apicache.antt =====
-- pkg/apicache/apicache.go: the cache of responses, as an interface and in its three implementations.
pub mod Tests
use wundergraph.Prelude.{ℕ, Bool, Option, none, some, List, [], ◌∷◌, Bytes, length, ◌≡◌, ◌≢◌, ◌⊎◌}
use wundergraph.Prelude.Int64.{Int64, sub64}

pub record CacheItem : Type 0 where
  pub data' : Bytes
  pub insert_unix : Int64

-- CacheItem.Age, at a time
unfoldable pub age : Int64 → CacheItem → Int64
age now item = sub64 now item.insert_unix

-- Cache. S is the state of the implementation; the writes get the time.
pub record Cache (S : Type 0) : Type 0 where
  pub set_with_ttl : Int64 → Bytes → Bytes → Int64 → S → S
  pub set : Int64 → Bytes → Bytes → S → S
  pub get : Bytes → S → Option CacheItem
  pub delete : Bytes → S → S

abbrev pub item_at : Int64 → Bytes → CacheItem
item_at now data' = record { data' = data'; insert_unix = now }

-- ristretto.Cache, with the items as its values: SetWithTTL and Set with a cost, Get, and Del
pub record Ristretto (S : Type 0) : Type 0 where
  pub set_with_ttl : Bytes → CacheItem → ℕ → Int64 → S → S
  pub set : Bytes → CacheItem → ℕ → S → S
  pub get : Bytes → S → Option CacheItem
  pub del : Bytes → S → S

-- InMemoryCache
unfoldable pub in_memory : {S : Type 0} → Ristretto S → Cache S
in_memory c = record {
  set_with_ttl = λ now key data' ttl s. c.set_with_ttl key (item_at now data') (length data') ttl s;
  set = λ now key data' s. c.set key (item_at now data') (length data') s;
  get = λ key s. c.get key s;
  delete = λ key s. c.del key s;
}

-- What GetSkippingLocalCache of package go-redis/cache returns.
pub data Found : Type 0 where
  found : CacheItem → Found
  cache_miss : Found
  get_failed : Found

-- cache.Cache of go-redis; with each write whether it returned an error. A ttl of none is the
-- package's default.
pub record Redis (S : Type 0) : Type 0 where
  pub set : Bytes → CacheItem → Option Int64 → S → Bool × S
  pub get_skipping_local_cache : Bytes → S → Found
  pub delete : Bytes → S → Bool × S

found_item : Found → Option CacheItem
found_item (found item) = some item
found_item cache_miss = none
found_item get_failed = none

-- RedisCache, whose errors are only logged
unfoldable pub redis : {S : Type 0} → Redis S → Cache S
unfolding found_item
redis c = record {
  set_with_ttl = λ now key data' ttl s. (c.set key (item_at now data') (some ttl) s).1;
  set = λ now key data' s. (c.set key (item_at now data') none s).1;
  get = λ key s. found_item (c.get_skipping_local_cache key s);
  delete = λ key s. (c.delete key s).1;
}

-- NoOpCache
unfoldable pub no_op : Cache (Unit {0})
no_op = record {
  set_with_ttl = λ now key data' ttl s. s;
  set = λ now key data' s. s;
  get = λ key s. none;
  delete = λ key s. s;
}
