-- ===== src/Cache/Memory/Threads.antt =====
-- pkg/cache/cache.go, type MemoryCache: Get beside the other methods. Get takes and gives back the
-- mutex of the cache up to three times, so a Get that has begun is a reader with its next step, and
-- other calls come in between; Set, Delete and Clear hold the mutex to their end.
mod Races
mod Tests
use pin_go.Base.{
  ℕ, zero, suc, ◌+◌, ◌==◌, String, Bool, List, [], ◌∷◌, Option, none, some, ℤ, pos, ◌+ℤ◌, int64,
  Time, Duration, get_elem?, if◌then◌else◌,
}
use pin_go.Base.Dict.{Entries, RangeOrder, lookup, insert}
use pin_go.Cache.Memory.{
  CacheEntry, MemoryCache, is_expired, miss, hit, delete_key, clear, set, Evicted, done, crashed,
  looping, Reply, found, failed, not_found, key_expired,
}

-- What a Get does next: count a miss, delete the key of an expired entry, count the miss after that,
-- or touch the entry that it has read. The entry is a pointer, whose object has a number.
pub data Reader : Type 0 where
  missing expired late : String → Reader
  live : String → CacheEntry → ℕ → Reader

-- `objects` is the number of the object that was stored last under a key, and `next` is a new one.
pub record Machine : Type 0 where
  pub cache : MemoryCache
  pub objects : Entries ℕ
  pub next : ℕ
  pub readers : List Reader
  pub answers : List (String × Reply)

pub data Event : Type 0 where
  begins : String → Time → Event
  goes_on : ℕ → Time → Event
  sets : String → List ℕ → Duration → Time → Event
  deletes : String → Event
  clears : Event

abbrev pub start_with : MemoryCache → Machine
start_with c = record { cache = c; objects = []; next = 0; readers = []; answers = [] }

number_or_zero : Option ℕ → ℕ
number_or_zero none = 0
number_or_zero (some n) = n

-- The first step of Get, under the read lock, with the test of IsExpired, which reads a field that
-- never changes.
read_entry : Machine → String → Time → Option CacheEntry → Reader
unfolding number_or_zero is_expired
read_entry m key now none = missing key
read_entry m key now (some e) =
    if is_expired e now then expired key else live key e (number_or_zero (lookup key m.objects))

same_object : ℕ → Option ℕ → Bool
unfolding number_or_zero
same_object n o = number_or_zero o == n

-- `c.stats.Hits++` alone, where the entry that was read is no longer in the map.
count_hit : MemoryCache → MemoryCache
count_hit c = record c { stats = record (c.stats) { hits = int64 (c.stats.hits +ℤ pos 1) } }

touch : Machine → String → ℕ → Time → Option CacheEntry → MemoryCache
unfolding hit count_hit same_object
touch m key n later none = count_hit m.cache
touch m key n later (some e) =
    if same_object n (lookup key m.objects) then hit m.cache key e later else count_hit m.cache

-- The next step of a reader: the cache, what the reader does after it, and its answer.
advance : Machine → Time → Reader → MemoryCache × Option Reader × Option (String × Reply)
unfolding touch miss delete_key
advance m later (missing key) = (miss m.cache, none, some (key, failed not_found))
advance m later (expired key) = (delete_key m.cache key, some (late key), none)
advance m later (late key) = (miss m.cache, none, some (key, failed key_expired))
advance m later (live key e n) =
    (touch m key n later (lookup key m.cache.entries), none, some (key, found e.value))

abbrev onto : {A : Type 0} → Option A → List A → List A
onto none xs = xs
onto (some x) xs = x ∷ xs

-- The reader at a place becomes another one, or ends.
put_reader : ℕ → Option Reader → List Reader → List Reader
put_reader i o [] = []
put_reader zero o (r ∷ rs) = onto o rs
put_reader (suc i) o (r ∷ rs) = r ∷ put_reader i o rs

proceed : Machine → ℕ → Time → Option Reader → Machine
unfolding advance put_reader
proceed m i later none = m
proceed m i later (some r) =
    let (c, next_step, answer) = advance m later r in
    record m {
      cache = c;
      readers = put_reader i next_step m.readers;
      answers = onto answer m.answers;
    }

-- `none` is a Set that panics or does not end.
after_set : Machine → String → Evicted → Option Machine
after_set m key (done c) =
    some (record m { cache = c; objects = insert key m.next m.objects; next = suc m.next })
after_set m key crashed = none
after_set m key (looping c) = none

module _ (order : RangeOrder CacheEntry) where
  pub step : Machine → Event → Option Machine
  unfolding read_entry proceed after_set clear
  step m (begins key now) =
      some (record m { readers = read_entry m key now (lookup key m.cache.entries) ∷ m.readers })
  step m (goes_on i later) = some (proceed m i later (get_elem? m.readers i))
  step m (sets key value ttl now) = after_set m key (set order m.cache key value ttl now)
  step m (deletes key) = some (record m { cache = delete_key m.cache key })
  step m clears = some (record m { cache = clear m.cache })

  pub run : Machine → List Event → Option Machine
  run m [] = some m
  run m (e ∷ es) = elim (step m e) [ none ↦ none | some m' ↦ run m' es ]
