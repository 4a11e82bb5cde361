-- ===== src/Apicache/Tests.antt =====
-- Tests of the cache of responses.
use wundergraph.Prelude.{
  ◌≡◌, refl, true, Option, none, some, List, [], ◌∷◌, Bytes, str, ◌==◌, if◌then◌else◌,
}
use wundergraph.Apicache.{
  CacheItem, item_at, age, Ristretto, in_memory, get_failed, Redis, redis, Cache,
}

abbrev Entries : Type 0
Entries = List (Bytes × CacheItem)

find : Bytes → Entries → Option CacheItem
find k [] = none
find k ((j, v) ∷ s) = let rest = find k s in if j == k then some v else rest

-- a ristretto.Cache that never drops an item
abbrev keeps_all : Ristretto Entries
keeps_all = record {
  set_with_ttl = λ k v cost ttl s. (k, v) ∷ s;
  set = λ k v cost s. (k, v) ∷ s;
  get = find;
  del = λ k s. s;
}

abbrev writes : {S : Type 0} → Cache S → S → S
writes c s =
    c.delete (str "c") (c.set 8 (str "b") (str "2") (c.set_with_ttl 7 (str "a") (str "1") 60 s))

found_again :
    (in_memory keeps_all).get (str "a") (writes (in_memory keeps_all) [])
    ≡ some (item_at 7 (str "1"))
unfolding in_memory find ◌==◌
found_again = refl

ages : (age 50 (item_at 8 []) ≡ 42) × (age 8 (item_at 9 []) ≡ 18446744073709551615)
unfolding age
ages = (refl, refl)

-- a redis that cannot be reached
abbrev down : Redis (Unit {0})
down = record {
  set = λ k v ttl s. (true, s);
  get_skipping_local_cache = λ k s. get_failed;
  delete = λ k s. (true, s);
}

misses : (redis down).get (str "a") (writes (redis down) tt) ≡ none
unfolding redis
misses = refl
