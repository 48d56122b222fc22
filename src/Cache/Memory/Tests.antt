-- ===== src/Cache/Memory/Tests.antt =====
-- pkg/cache/cache.go, type MemoryCache, at concrete inputs.
use pin_go.Base.{
  ℕ, String, str_eq, eq_iff, ◌≡◌, ◌≢◌, refl, [], ◌∷◌, none, some, pos, Time, arith, if◌then◌else◌,
  ◌⊎◌, inr, ◌+ℤ◌, ◌-ℤ◌, int64,
}
use pin_go.Base.Dict.{lookup, insert, delete, RangeOrder}
use pin_go.Cache.Memory.{
  CacheEntry, MemoryCache, Evicted, done, looping, found, failed, key_expired, over_limit,
  evict_lru, evict_if_needed, set, get, delete_key, make_entry, memory_cache, oldest, get_key_lock,
  is_expired,
}
use pin_go.Cache.Memory.Valid.{IsValid}
use pin_go.Cache.Memory.Lru.{Evicts, evict_lru-Evicts}
use pin_go.Cache.Memory.Eviction.{evict_if_needed_forever}
use pin_go.Cache.Memory.Reading.{get-set, expiry}

program : Unit {0}
unfolding lookup insert delete is_expired over_limit oldest get set make_entry int64 ◌+ℤ◌ ◌-ℤ◌
    delete_key
program = tt

abbrev in_order : RangeOrder CacheEntry
in_order = record { range = λ m. m; lookup-range = λ k m. refl; range-Distinct = λ m d. d }

abbrev entry : ℕ → Time → CacheEntry
entry n at = record {
  value = n ∷ n ∷ [];
  expires_at = pos 60_000_000_000;
  accessed_at = at;
  created_at = at;
  size = pos 2;
}

-- Two entries of two bytes, `b` the one that was not used for longer, and room for five bytes.
abbrev two : MemoryCache
two = record (memory_cache (pos 5) (pos 10)) {
  entries = ("a", entry 1 (pos 20)) ∷ ("b", entry 2 (pos 10)) ∷ [];
  current_size = pos 4;
  stats = record ((memory_cache (pos 5) (pos 10)).stats) { item_count = pos 2; size = pos 4 };
}

b_not_a : ◌≢◌ {A = String} "b" "a"
b_not_a = ground (arith, eq_iff "b" "a")

two-IsValid : IsValid two
unfolding program memory_cache
two-IsValid = record {
  distinct = (refl, (refl, tt));
  sized = refl;
  counted = refl;
  no_debt = refl;
  small = omega arith;
  few = omega arith;
}

abbrev after_set : Evicted
after_set = set in_order two "c" (7 ∷ 7 ∷ 7 ∷ []) (pos 0) (pos 30)

settled : Evicted → MemoryCache
settled (done c) = c
settled _ = two

evicts_the_oldest : lookup "b" (settled after_set).entries ≡ none
unfolding program settled evict_if_needed evict_lru memory_cache get_key_lock
evicts_the_oldest = refl

keeps_the_newer : (get (settled after_set) "a" (pos 40) (pos 41)).1 ≡ found (1 ∷ 1 ∷ [])
unfolding program settled evict_if_needed evict_lru memory_cache get_key_lock
keeps_the_newer = refl

expires : (get two "a" (pos 60_000_000_001) (pos 60_000_000_002)).1 ≡ failed key_expired
unfolding program memory_cache
expires = refl

evict_lru-Evicts_example :
    ((two.entries ≡ []) × (evict_lru in_order two ≡ some two))
    ⊎ ((key : String) × (c' : MemoryCache) × (evict_lru in_order two ≡ some c') × Evicts two c' key)
unfolding program memory_cache
evict_lru-Evicts_example = evict_lru-Evicts in_order two two-IsValid refl

get-set_example :
    (c' : MemoryCache) × (set in_order two "a" (9 ∷ []) (pos 5) (pos 30) ≡ done c')
    × ((j : String)
        → lookup j c'.entries ≡ (
            if str_eq "a" j
            then some (make_entry (9 ∷ []) (pos 5) (pos 30))
            else lookup j two.entries))
    × ((now later : Time)
        → (get c' "a" now later).1
          ≡ (if expiry (pos 5) (pos 30) now then failed key_expired else found (9 ∷ [])))
unfolding memory_cache lookup
get-set_example =
    get-set in_order two "a" (9 ∷ []) (pos 5) (pos 30) two-IsValid (omega arith, omega arith)
      (inr (omega arith)) (inr (omega arith)) (omega arith)

-- One entry under the empty key, of two bytes where one is allowed.
abbrev stuck : MemoryCache
stuck = record (memory_cache (pos 1) (pos 10)) {
  entries = ("", entry 1 (pos 20)) ∷ [];
  current_size = pos 2;
}

evict_if_needed_forever_example : evict_if_needed in_order 1000 stuck ≡ looping stuck
unfolding program memory_cache
evict_if_needed_forever_example =
    evict_if_needed_forever in_order 1000 stuck (entry 1 (pos 20)) refl refl
