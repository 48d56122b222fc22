-- ===== src/Cache/Memory/Reading.antt =====
-- pkg/cache/cache.go, type MemoryCache: what Get returns after Set, Delete and the passing of time.
use pin_go.Base.{
  [], ◌∷◌, ◌-◌, ◌⊎◌, ℤ, ℕ, ◌+◌, String, str_eq, eq_iff, ◌≡◌, refl, ap, ◌∙◌, Bool, true, false, List,
  Option, none, some, pos, int64, ltb_ℤ, ◌&&◌, ◌≤ℤ◌, +ℤ_parts, ◌+ℤ◌, ◌≤◌, Time, Duration, after,
  length, arith, if◌then◌else◌, Bool-cases, inl, inr,
}
use pin_go.Base.Dict.{
  lookup, delete, lookup-insert, lookup-delete, total, total-insert, value_or_zero, Entries,
  RangeOrder,
}
use pin_go.Cache.Memory.{
  CacheEntry, MemoryCache, done, found, failed, not_found, key_expired, is_expired, over_limit, set,
  get, delete_key, make_entry, store, get_key_lock, Reply, get_entry, remove, miss, hit, finish,
  note_size,
}
use pin_go.Cache.Memory.Valid.{IsValid, Fits, store-IsValid, entry_size, one}
use pin_go.Cache.Memory.Eviction.{store-entries, locked-IsValid, noted-IsValid, stops}

-- What Get does: the reply, the counter that it moves and every entry after it.
pub data Got (c : MemoryCache) (key : String) (now later : Time) (c' : MemoryCache) (reply : Reply)
    : Type 0 where
  missed :
      lookup key c.entries ≡ none
      → reply ≡ failed not_found
      → c'.stats.misses ≡ int64 (c.stats.misses +ℤ pos 1)
      → c'.entries ≡ c.entries
      → Got c key now later c' reply
  expired :
      (e : CacheEntry)
      → lookup key c.entries ≡ some e
      → is_expired e now ≡ true
      → reply ≡ failed key_expired
      → c'.stats.misses ≡ int64 (c.stats.misses +ℤ pos 1)
      → ((j : String) → lookup j c'.entries ≡ (if str_eq key j then none else lookup j c.entries))
      → Got c key now later c' reply
  hits :
      (e : CacheEntry)
      → lookup key c.entries ≡ some e
      → is_expired e now ≡ false
      → reply ≡ found e.value
      → c'.stats.hits ≡ int64 (c.stats.hits +ℤ pos 1)
      → ((j : String)
          → lookup j c'.entries ≡ (
              if str_eq key j then some (record e { accessed_at = later }) else lookup j c.entries))
      → Got c key now later c' reply

dropped :
    (c : MemoryCache) (key : String) (e : CacheEntry)
    → IsValid c
    → lookup key c.entries ≡ some e
    → ((delete_key c key).entries ≡ delete key c.entries)
      × ((delete_key c key).stats.misses ≡ c.stats.misses)
unfolding delete_key
dropped c key e v h = (rw (h, remove), rw (h, remove))

get_entry-Got :
    (c : MemoryCache) (key : String) (now later : Time) (o : Option CacheEntry)
    → IsValid c
    → lookup key c.entries ≡ o
    → let (c', reply) = get_entry c key now later o in Got c key now later c' reply
unfolding get_entry miss hit
get_entry-Got c key now later none v h = missed h refl refl refl
get_entry-Got c key now later (some e) v h = elim (Bool-cases (is_expired e now)) [
  | inl t ↦
      let (entries, misses) = dropped c key e v h in
      rw (t, get_entry)
        (expired e h t refl (ap (λ n. int64 (n +ℤ pos 1)) misses)
          λ j. ap (lookup j) entries ∙ lookup-delete key j c.entries v.distinct)
  | inr t ↦
      rw (t, get_entry)
        (hits e h t refl refl λ j. lookup-insert key j (record e { accessed_at = later }) c.entries)
]

-- Get finds the value of an entry that is not expired, and then only writes the time of the access.
-- It drops an expired entry and no other, and reports each failure by its own error.
pub get-Got :
    (c : MemoryCache) (key : String) (now later : Time)
    → IsValid c
    → let (c', reply) = get c key now later in Got c key now later c' reply
unfolding get
get-Got c key now later v = get_entry-Got c key now later (lookup key c.entries) v refl

-- The number stays within a limit, where 0 and less is no limit.
abbrev pub Within : ℤ → ℕ → Type 0
Within limit n = (limit ≤ℤ pos 0) ⊎ (pos n ≤ℤ limit)

-- The size and the count of items after a Set of a value of this length.
abbrev pub size_with : MemoryCache → String → ℕ → ℕ
size_with c key n = total entry_size c.entries - value_or_zero entry_size (lookup key c.entries) + n

abbrev pub items_with : MemoryCache → String → ℕ
items_with c key = total one c.entries - value_or_zero one (lookup key c.entries) + 1

fits-Within :
    (c : MemoryCache) (size items : ℕ)
    → IsValid c
    → total entry_size c.entries ≡ size
    → total one c.entries ≡ items
    → Within c.max_size size
    → Within c.max_items items
    → over_limit c ≡ false
unfolding over_limit
fits-Within c size items v p q h k = ground (arith, v.sized, v.counted)

total-lookup :
    (f : CacheEntry → ℕ) (key : String) (m : Entries CacheEntry)
    → value_or_zero f (lookup key m) ≤ total f m
unfolding lookup
total-lookup f key [] = omega arith
total-lookup f key ((i, w) ∷ m) = ground (arith, total-lookup f key m)

store-total :
    (f : CacheEntry → ℕ) (c : MemoryCache) (key : String) (e : CacheEntry) (o : Option CacheEntry)
    → total f (store c key e o).entries
      ≡ total f c.entries - value_or_zero f (lookup key c.entries) + f e
store-total f c key e o = omega (
  arith,
  ap (total f) (store-entries c key e o),
  total-insert f key e c.entries,
  total-lookup f key c.entries,
)

store-limits :
    (c : MemoryCache) (key : String) (e : CacheEntry) (o : Option CacheEntry)
    → ((store c key e o).max_size ≡ c.max_size) × ((store c key e o).max_items ≡ c.max_items)
unfolding store
store-limits c key e none = (refl, refl)
store-limits c key e (some x) = (refl, refl)

-- When the entry that a `Set` made at `at` has expired.
abbrev pub expiry : Duration → Time → Time → Bool
expiry ttl at now = ltb_ℤ (pos 0) ttl && after now (at +ℤ ttl)

make_entry-is_expired :
    (value : List ℕ) (ttl : Duration) (at now : Time)
    → pos 0 ≤ℤ at
    → is_expired (make_entry value ttl at) now ≡ expiry ttl at now
unfolding is_expired make_entry
make_entry-is_expired value ttl at now h = ground (arith, +ℤ_parts at ttl)

reply_of_Got :
    (c c' : MemoryCache) (key : String) (now later : Time) (reply : Reply) (e : CacheEntry)
    → lookup key c.entries ≡ some e
    → Got c key now later c' reply
    → reply ≡ (if is_expired e now then failed key_expired else found e.value)
reply_of_Got c c' key now later reply e h (missed n r m s) = cc
reply_of_Got c c' key now later reply e h (expired x l t r m s) = ground arith
reply_of_Got c c' key now later reply e h (hits x l t r m s) = ground arith

module _ (order : RangeOrder CacheEntry) where
  -- A Set that leaves a cache, whose size and count are those of its entries, within its limits, of
  -- which 0 and less is none, evicts nothing, also where it overwrites an entry of a full cache: it
  -- ends, stores the new entry and leaves every other, and a Get at a later time returns the value
  -- until the time to live, if there is one, is over. The value fits an int64 beside what the cache
  -- holds, and the time of the Set is not before the start of the clock.
  pub get-set :
      (c : MemoryCache) (key : String) (value : List ℕ) (ttl : Duration) (at : Time)
      → IsValid c
      → Fits c (length value)
      → Within c.max_size (size_with c key (length value))
      → Within c.max_items (items_with c key)
      → pos 0 ≤ℤ at
      → (c' : MemoryCache) × (set order c key value ttl at ≡ done c')
        × ((j : String)
            → lookup j c'.entries
              ≡ (if str_eq key j then some (make_entry value ttl at) else lookup j c.entries))
        × ((now later : Time)
            → (get c' key now later).1
              ≡ (if expiry ttl at now then failed key_expired else found value))
  unfolding set finish note_size get_key_lock
  get-set c key value ttl at v f size count h =
      let locked = get_key_lock c key in
      let e = make_entry value ttl at in
      let o = lookup key locked.entries in
      let stored = store locked key e o in
      let entries = store-entries locked key e o in
      let valid =
        store-IsValid locked key e (length value) o (locked-IsValid c key v) refl
          (unfold make_entry in refl) f in
      let limits = store-limits locked key e o in
      let within =
        fits-Within stored (size_with c key (length value)) (items_with c key) valid
          (unfold make_entry in store-total entry_size locked key e o)
          (store-total one locked key e o) (rw limits.0 size) (rw limits.1 count) in
      let kept = λ (j : String). ap (lookup j) entries ∙ lookup-insert key j e c.entries in
      let c' = note_size stored in
      let there : lookup key c'.entries ≡ some e = kept key ∙ rw ((eq_iff key key).1 refl) in
      (
        c',
        ap finish (stops order (length stored.entries) stored within),
        kept,
        λ now later.
            reply_of_Got c' (get c' key now later).0 key now later (get c' key now later).1 e there
              (get-Got c' key now later (noted-IsValid stored valid))
            ∙ rw (make_entry-is_expired value ttl at now h) (unfold make_entry in refl),
      )
