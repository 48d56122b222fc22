-- ===== src/Cache/Memory.antt =====
-- pkg/cache/cache.go, type MemoryCache. A byte is a number, a method takes the times that its calls
-- of time.Now read, and each method is one step here; the steps of Get are told apart in Threads. The
-- entries are a list, whose `range` order is a parameter.
mod Valid
mod Lru
mod Eviction
mod Reading
mod Threads
mod Tests
use pin_go.Base.{
  ℕ, zero, suc, String, str_eq, Bool, true, false, not, ◌&&◌, ◌||◌, List, [], ◌∷◌, Option, none,
  some, ℤ, pos, ◌+ℤ◌, ◌-ℤ◌, ltb_ℤ, int64, Time, Duration, zero_time, is_zero, after, add_time,
  length, if◌then◌else◌,
}
use pin_go.Base.Dict.{lookup, insert, delete, RangeOrder}
use pin_go.Errors.{Error, cache_error, new}

pub record CacheStats : Type 0 where
  pub hits : ℤ
  pub misses : ℤ
  pub evictions : ℤ
  pub size : ℤ
  pub max_size : ℤ
  pub item_count : ℤ
  pub max_items : ℤ

pub record CacheEntry : Type 0 where
  pub value : List ℕ
  pub expires_at : Time
  pub accessed_at : Time
  pub created_at : Time
  pub size : ℤ

unfoldable pub is_expired : CacheEntry → Time → Bool
is_expired e now = if is_zero e.expires_at then false else after now e.expires_at

pub record MemoryCache : Type 0 where
  pub entries : List (String × CacheEntry)
  pub max_size : ℤ
  pub max_items : ℤ
  pub current_size : ℤ
  pub stats : CacheStats
  pub locks : List String

-- `NewMemoryCache` with a configuration that is not nil.
unfoldable pub memory_cache : ℤ → ℤ → MemoryCache
memory_cache max_size max_items = record {
  entries = [];
  max_size = max_size;
  max_items = max_items;
  current_size = pos 0;
  stats = record {
    hits = pos 0;
    misses = pos 0;
    evictions = pos 0;
    size = pos 0;
    max_size = max_size;
    item_count = pos 0;
    max_items = max_items;
  };
  locks = [];
}

-- `NewMemoryCache`; without a configuration, 100 MB and 10000 items.
unfoldable pub new_memory_cache : Option (ℤ × ℤ) → MemoryCache
unfolding memory_cache
new_memory_cache none = memory_cache (pos 104_857_600) (pos 10_000)
new_memory_cache (some (max_size, max_items)) = memory_cache max_size max_items

-- `c.stats.Misses++`.
pub miss : MemoryCache → MemoryCache
miss c = record c { stats = record (c.stats) { misses = int64 (c.stats.misses +ℤ pos 1) } }

-- The `if` of `Delete` on the entry that is there.
remove : MemoryCache → String → Option CacheEntry → MemoryCache
remove c key none = c
remove c key (some e) = record c {
  entries = delete key c.entries;
  current_size = int64 (c.current_size -ℤ e.size);
  stats = record (c.stats) { item_count = int64 (c.stats.item_count -ℤ pos 1) };
}

-- `c.stats.Size = c.currentSize`.
pub note_size : MemoryCache → MemoryCache
note_size c = record c { stats = record (c.stats) { size = c.current_size } }

unfoldable pub delete_key : MemoryCache → String → MemoryCache
unfolding remove note_size
delete_key c key = note_size (remove c key (lookup key c.entries))

pub data Reply : Type 0 where
  found : List ℕ → Reply
  failed : Error → Reply

abbrev pub not_found : Error
not_found = new cache_error "key not found"

abbrev pub key_expired : Error
key_expired = new cache_error "key expired"

-- The last part of `Get`: the entry of the map is mutated in place.
pub hit : MemoryCache → String → CacheEntry → Time → MemoryCache
hit c key e now = record c {
  entries = insert key (record e { accessed_at = now }) c.entries;
  stats = record (c.stats) { hits = int64 (c.stats.hits +ℤ pos 1) };
}

-- `Get` on the entry that it has read; `now` is read by IsExpired and `later` for AccessedAt.
get_entry : MemoryCache → String → Time → Time → Option CacheEntry → MemoryCache × Reply
unfolding hit
get_entry c key now later none = (miss c, failed not_found)
get_entry c key now later (some e) =
    if is_expired e now
    then (miss (delete_key c key), failed key_expired)
    else (hit c key e later, found e.value)

unfoldable pub get : MemoryCache → String → Time → Time → MemoryCache × Reply
unfolding get_entry miss is_expired
get c key now later = get_entry c key now later (lookup key c.entries)

-- `getKeyLock` makes a lock for a new key and never drops one.
add_lock : String → List String → List String
add_lock key [] = key ∷ []
add_lock key (k ∷ ks) = if str_eq k key then k ∷ ks else k ∷ add_lock key ks

unfoldable pub get_key_lock : MemoryCache → String → MemoryCache
unfolding add_lock
get_key_lock c key = record c { locks = add_lock key c.locks }

unfoldable pub clear : MemoryCache → MemoryCache
clear c = record c {
  entries = [];
  current_size = pos 0;
  stats = record (c.stats) { item_count = pos 0; size = pos 0 };
}

-- How `evictIfNeeded` ends: done, with a nil entry dereferenced, or still looping after its fuel.
pub data Evicted : Type 0 where
  done : MemoryCache → Evicted
  crashed : Evicted
  looping : MemoryCache → Evicted

-- The test of the loop of `evictIfNeeded`.
unfoldable pub over_limit : MemoryCache → Bool
over_limit c =
    ltb_ℤ (pos 0) c.max_size && ltb_ℤ c.max_size c.current_size
    || ltb_ℤ (pos 0) c.max_items && ltb_ℤ c.max_items c.stats.item_count

-- The loop of `evictLRU`, with `oldestKey` and `oldestTime`; no key is the empty string.
pub oldest : List (String × CacheEntry) → String → Time → String
oldest [] oldest_key oldest_time = oldest_key
oldest ((key, e) ∷ m) oldest_key oldest_time =
    let better = str_eq oldest_key "" || after oldest_time e.accessed_at in
    oldest m (if better then key else oldest_key) (if better then e.accessed_at else oldest_time)

-- The last part of `evictLRU` on the entry of the oldest key.
pub evicted : MemoryCache → String → CacheEntry → MemoryCache
evicted c key e = record c {
  entries = delete key c.entries;
  current_size = int64 (c.current_size -ℤ e.size);
  stats = record (c.stats) {
    item_count = int64 (c.stats.item_count -ℤ pos 1);
    evictions = int64 (c.stats.evictions +ℤ pos 1);
  };
}

evict : MemoryCache → String → Option CacheEntry → Option MemoryCache
unfolding evicted
evict c key none = none
evict c key (some e) = some (evicted c key e)

-- The entry that `Set` stores.
pub make_entry : List ℕ → Duration → Time → CacheEntry
make_entry value ttl now = record {
  value = value;
  expires_at = if ltb_ℤ (pos 0) ttl then add_time now ttl else zero_time;
  accessed_at = now;
  created_at = now;
  size = pos (length value);
}

-- `Set` up to the eviction.
pub store : MemoryCache → String → CacheEntry → Option CacheEntry → MemoryCache
store c key e (some existing) = record c {
  entries = insert key e c.entries;
  current_size = int64 (int64 (c.current_size -ℤ existing.size) +ℤ e.size);
}
store c key e none = record c {
  entries = insert key e c.entries;
  current_size = int64 (c.current_size +ℤ e.size);
  stats = record (c.stats) { item_count = int64 (c.stats.item_count +ℤ pos 1) };
}

-- The end of `Set`.
finish : Evicted → Evicted
unfolding note_size
finish (done c) = done (note_size c)
finish crashed = crashed
finish (looping c) = looping c

module _ (order : RangeOrder CacheEntry) where
  -- `none` is the panic of a nil dereference.
  unfoldable pub evict_lru : MemoryCache → Option MemoryCache
  unfolding oldest evict
  evict_lru c =
      let key = oldest (order.range c.entries) "" zero_time in
      if str_eq key "" then some c else evict c key (lookup key c.entries)

  unfoldable pub evict_if_needed : ℕ → MemoryCache → Evicted
  evict_if_needed zero c = looping c
  evict_if_needed (suc fuel) c = elim (over_limit c) [
    | false ↦ done c
    | true ↦ elim (evict_lru c) [ none ↦ crashed | some c' ↦ evict_if_needed fuel c' ]
  ]

  -- `Set` returns nil when it ends. The fuel is a round for each entry and one for the last test.
  unfoldable pub set : MemoryCache → String → List ℕ → Duration → Time → Evicted
  unfolding make_entry store finish
  set c key value ttl now =
      let locked = get_key_lock c key in
      let stored = store locked key (make_entry value ttl now) (lookup key locked.entries) in
      finish (evict_if_needed (suc (length stored.entries)) stored)
