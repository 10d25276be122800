-- ===== src/Tests/AgentTests.antt =====
-- The Agent's cache at concrete inputs.
use fast_spider.Prelude.{
  ℕ, ◌+◌, ◌≡◌, ◌≤◌, refl, List, [], ◌∷◌, none, some, String, arith, length, lookup, UniqueKeys, ltb,
  if◌then◌else◌, str_eq, max,
}
use fast_spider.Agent.Cache.Defs.{CacheEntry, TtlCache, new_ttl_cache, get, put, cloned}
use fast_spider.Agent.Cache.Bound.{
  Call, gets, puts, replay, IsBounded, AllFrom, cache_bounded, eviction_takes_first,
}
use fast_spider.Agent.Cache.Reads.{get-put}

abbrev calls : List (Call ℕ)
calls = puts "a" 1 10 ∷ puts "b" 2 5 ∷ puts "c" 3 12 ∷ gets "a" 14 ∷ []

cache_bounded_example :
    let c = replay (new_ttl_cache 45 2 none) calls in
    UniqueKeys c.entries × (length c.entries ≤ max 1 2)
cache_bounded_example = cache_bounded 45 2 none calls

abbrev full_cache : TtlCache ℕ
full_cache = record {
  entries =
      ("a", record { value = 1; expires = 55 }) ∷ ("b", record { value = 2; expires = 50 }) ∷ [];
  ttl = 45;
  max_keys = 2;
  clone = none;
}

full_cache-IsBounded : IsBounded full_cache
unfolding lookup
full_cache-IsBounded = record {
  unique = (refl, (refl, tt));
  room = omega arith;
  bounded = omega arith;
}

eviction_takes_first_example :
    (victim : String) × (e : CacheEntry ℕ) × (lookup victim full_cache.entries ≡ some e)
    × AllFrom e.expires full_cache.entries
    × ((j : String)
        → lookup j (put full_cache "c" 3 12).entries ≡ (
            if str_eq "c" j
            then some (record { value = cloned none 3; expires = 12 + 45 })
            else if str_eq victim j
            then none
            else lookup j full_cache.entries))
unfolding lookup
eviction_takes_first_example =
    eviction_takes_first full_cache "c" 3 12 full_cache-IsBounded (refl, (refl, tt)) refl refl

get-put_example :
    let r = get (put full_cache "c" 3 12) "c" 20 in
    let live = ltb 20 (12 + 45) in
    (r.1 ≡ (if live then some (cloned none (cloned none 3)) else none))
    × (lookup "c" r.0.entries
        ≡ (if live then some (record { value = cloned none 3; expires = 12 + 45 }) else none))
get-put_example = get-put full_cache "c" 3 12 20
