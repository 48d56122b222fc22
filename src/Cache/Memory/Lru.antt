-- ===== src/Cache/Memory/Lru.antt =====
-- pkg/cache/cache.go, method evictLRU of MemoryCache: which entry it takes.
use pin_go.Base.{
  suc, String, str_eq, eq_iff, ◌≡◌, refl, ap, sym, ◌∙◌, false, List, [], ◌∷◌, none, some, ◌≤ℤ◌,
  ◌<ℤ◌, Time, zero_time, after, length, arith, Bool-cases, inl, inr, ◌⊎◌, All,
}
use pin_go.Base.Dict.{lookup, delete, Distinct, RangeOrder}
use pin_go.Cache.Memory.{CacheEntry, MemoryCache, oldest, evict, evicted, evict_lru}
use pin_go.Cache.Memory.Valid.{IsValid, evicted_lem}

abbrev NotBefore : Time → List (String × CacheEntry) → Type 0
NotBefore t = All λ p. t ≤ℤ p.1.accessed_at

NotBefore-weaken :
    (s t : Time) (m : List (String × CacheEntry)) → s ≤ℤ t → NotBefore t m → NotBefore s m
NotBefore-weaken s t [] h a = tt
NotBefore-weaken s t ((k, e) ∷ m) h a = (omega (arith, a.0), NotBefore-weaken s t m h a.1)

NotBefore-lookup :
    (t : Time) (m : List (String × CacheEntry)) (k : String) (e : CacheEntry)
    → NotBefore t m
    → lookup k m ≡ some e
    → t ≤ℤ e.accessed_at
unfolding lookup
NotBefore-lookup t [] k e a h = cc
NotBefore-lookup t ((j, x) ∷ m) k e a h = ground (arith, NotBefore-lookup t m k e a.1)

-- The key names an entry of the list, and no other was accessed before it.
pub record Picks (m : List (String × CacheEntry)) (key : String) : Type 0 where
  pub entry : CacheEntry
  pub there : lookup key m ≡ some entry
  pub least : NotBefore entry.accessed_at m

ne_of_lookup :
    (k r : String) (m : List (String × CacheEntry)) (e : CacheEntry)
    → lookup k m ≡ none
    → lookup r m ≡ some e
    → str_eq k r ≡ false
ne_of_lookup k r m e n s = elim (Bool-cases (str_eq k r)) [
  | inl t ↦ let same : k ≡ r = (eq_iff k r).0 t in cc (ap (λ x. lookup x m) same)
  | inr t ↦ t
]

Picks-later :
    (k : String) (e : CacheEntry) (m : List (String × CacheEntry)) (r : String) (p : Picks m r)
    → lookup k m ≡ none
    → p.entry.accessed_at ≤ℤ e.accessed_at
    → Picks ((k, e) ∷ m) r
unfolding lookup
Picks-later k e m r p n h = record {
  entry = p.entry;
  there = rw (ne_of_lookup k r m p.entry n p.there) p.there;
  least = (h, p.least);
}

Picks-first :
    (k : String) (e : CacheEntry) (m : List (String × CacheEntry))
    → NotBefore e.accessed_at m
    → Picks ((k, e) ∷ m) k
unfolding lookup
Picks-first k e m a = record {
  entry = e;
  there = rw ((eq_iff k k).1 refl);
  least = (omega arith, a);
}

-- The loop from a key that is not the empty string.
Scanned : List (String × CacheEntry) → String → Time → Type 0
Scanned m key time =
    ((oldest m key time ≡ key) × NotBefore time m)
    ⊎ ((p : Picks m (oldest m key time)) × (p.entry.accessed_at <ℤ time))

oldest_lem :
    (m : List (String × CacheEntry)) (key : String) (time : Time)
    → str_eq key "" ≡ false
    → Distinct m
    → lookup "" m ≡ none
    → Scanned m key time
unfolding oldest Scanned lookup Picks-first Picks-later
oldest_lem [] key time h d n = inl (refl, tt)
oldest_lem ((k, e) ∷ m) key time h d n =
    let k_named : str_eq k "" ≡ false = ground arith in
    let n' : lookup "" m ≡ none = ground arith in
    elim (Bool-cases (after time e.accessed_at)) [
      | inl t ↦
          let sooner : e.accessed_at <ℤ time = ground arith in
          rw (h, t)
            (elim (oldest_lem m k e.accessed_at k_named d.1 n') [
              | inl (same, a) ↦ rw same (inr (Picks-first k e m a, sooner))
              | inr (p, low) ↦
                  inr (Picks-later k e m _ p d.0 (omega (arith, low)), omega (arith, low, sooner))
            ])
      | inr t ↦
          let no_sooner : time ≤ℤ e.accessed_at = ground arith in
          rw (h, t)
            (elim (oldest_lem m key time h d.1 n') [
              | inl (same, a) ↦ inl (same, (no_sooner, a))
              | inr (p, low) ↦ inr (Picks-later k e m _ p d.0 (omega (arith, low, no_sooner)), low)
            ])
    ]

-- The whole loop, where no key is the empty string.
oldest-Picks :
    (m : List (String × CacheEntry))
    → Distinct m
    → lookup "" m ≡ none
    → (m ≡ []) ⊎ Picks m (oldest m "" zero_time)
unfolding oldest lookup Scanned
oldest-Picks [] d n = inl refl
oldest-Picks ((k, e) ∷ m) d n =
    let k_named : str_eq k "" ≡ false = ground arith in
    let n' : lookup "" m ≡ none = ground arith in
    inr (elim (oldest_lem m k e.accessed_at k_named d.1 n') [
      | inl (same, a) ↦ rw same (Picks-first k e m a)
      | inr (p, low) ↦ Picks-later k e m _ p d.0 (omega (arith, low))
    ])

-- A step that takes the entry of `key` off the cache.
pub record Evicts (c c' : MemoryCache) (key : String) : Type 0 where
  pub entry : CacheEntry
  pub there : lookup key c.entries ≡ some entry
  pub entries : c'.entries ≡ delete key c.entries
  pub least :
      (j : String) (e : CacheEntry)
      → lookup j c.entries ≡ some e
      → entry.accessed_at ≤ℤ e.accessed_at
  pub limits : (c'.max_size ≡ c.max_size) × (c'.max_items ≡ c.max_items)
  pub valid : IsValid c'
  pub shorter : suc (length c'.entries) ≡ length c.entries

evicted-Evicts :
    (c : MemoryCache) (key : String) (e : CacheEntry)
    → IsValid c
    → lookup key c.entries ≡ some e
    → ((j : String) (x : CacheEntry) → lookup j c.entries ≡ some x → e.accessed_at ≤ℤ x.accessed_at)
    → Evicts c (evicted c key e) key
unfolding evicted
evicted-Evicts c key e v h least =
    let (valid, shorter) = evicted_lem c key e v h in
    record {
      entry = e;
      there = h;
      entries = refl;
      least = least;
      limits = (refl, refl);
      valid = valid;
      shorter = shorter;
    }

-- A map in which every lookup misses is empty.
empty_of_lookup : (m : List (String × CacheEntry)) → ((k : String) → lookup k m ≡ none) → m ≡ []
unfolding lookup
empty_of_lookup [] h = refl
empty_of_lookup ((k, e) ∷ m) h = cc (rw ((eq_iff k k).1 refl) at (h k))

named_of_lookup :
    (key : String) (m : List (String × CacheEntry)) (e : CacheEntry)
    → lookup "" m ≡ none
    → lookup key m ≡ some e
    → str_eq key "" ≡ false
named_of_lookup key m e n s =
    ground (arith, ne_of_lookup "" key m e n s, eq_iff "" key, eq_iff key "")

module _ (order : RangeOrder CacheEntry) where
  visits_none :
      (m : List (String × CacheEntry)) → order.range m ≡ [] → (k : String) → lookup k m ≡ none
  unfolding lookup
  visits_none m e k = sym (order.lookup-range k m) ∙ ap (lookup k) e

  -- On a cache whose counts are right and none of whose keys is the empty string, one eviction takes
  -- off an entry that was accessed no later than any other, whatever the order of the loop. An
  -- empty cache it leaves as it is.
  pub evict_lru-Evicts :
      (c : MemoryCache)
      → IsValid c
      → lookup "" c.entries ≡ none
      → ((c.entries ≡ []) × (evict_lru order c ≡ some c))
        ⊎ ((key : String) × (c' : MemoryCache) × (evict_lru order c ≡ some c') × Evicts c c' key)
  unfolding evict_lru evict oldest
  evict_lru-Evicts c v n =
      let m = order.range c.entries in
      let key = oldest m "" zero_time in
      let n' = order.lookup-range "" c.entries ∙ n in
      elim (oldest-Picks m (order.range-Distinct c.entries v.distinct) n') [
        | inl e ↦ inl (empty_of_lookup c.entries (visits_none c.entries e), rw e refl)
        | inr p ↦
            let there = sym (order.lookup-range key c.entries) ∙ p.there in
            let least = λ (j : String) (x : CacheEntry) (h : lookup j c.entries ≡ some x).
              NotBefore-lookup p.entry.accessed_at m j x p.least
                (order.lookup-range j c.entries ∙ h) in
            inr (
              key,
              evicted c key p.entry,
              rw (named_of_lookup key m p.entry n' p.there, there),
              evicted-Evicts c key p.entry v there least,
            )
      ]
