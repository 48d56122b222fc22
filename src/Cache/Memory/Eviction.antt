-- ===== src/Cache/Memory/Eviction.antt =====
-- pkg/cache/cache.go, methods Set and evictIfNeeded of MemoryCache: how the loop ends.
use pin_go.Base.{
  ℕ, zero, suc, ◌<◌, String, str_eq, eq_iff, ◌≡◌, refl, ap, sym, ◌∙◌, true, false, List, [], ◌∷◌,
  Option, none, some, pos, Time, Duration, zero_time, length, arith, if◌then◌else◌, Bool-cases,
  Option-cases, inl, inr, ◌⊎◌,
}
use pin_go.Base.Dict.{
  lookup, insert, delete, lookup-insert, lookup-delete_ne, lookup-delete_self, total, Distinct,
  RangeOrder,
}
use pin_go.Cache.Memory.{
  CacheEntry, MemoryCache, done, looping, over_limit, oldest, evict_lru, evict_if_needed, set,
  get_key_lock, make_entry, store, finish, note_size,
}
use pin_go.Cache.Memory.Valid.{IsValid, Fits, store-IsValid, entry_size, one}
use pin_go.Cache.Memory.Lru.{Evicts, evict_lru-Evicts}

-- The cache after the loop: within the limits, and with some of the entries as they were.
pub record Settles (c c' : MemoryCache) : Type 0 where
  pub valid : IsValid c'
  pub within : over_limit c' ≡ false
  pub limits : (c'.max_size ≡ c.max_size) × (c'.max_items ≡ c.max_items)
  pub kept :
      (j : String) (e : CacheEntry) → lookup j c'.entries ≡ some e → lookup j c.entries ≡ some e

empty_within : (c : MemoryCache) → IsValid c → c.entries ≡ [] → over_limit c ≡ false
unfolding over_limit
empty_within c v e =
    let size : c.current_size ≡ pos 0 = v.sized ∙ ap (λ m. pos (total entry_size m)) e in
    let count : c.stats.item_count ≡ pos 0 = v.counted ∙ ap (λ m. pos (total one m)) e in
    ground (arith, size, count)

delete_kept :
    (k j : String) (m : List (String × CacheEntry)) (e : CacheEntry)
    → Distinct m
    → lookup j (delete k m) ≡ some e
    → lookup j m ≡ some e
delete_kept k j m e d h = elim (Bool-cases (str_eq k j)) [
  | inl t ↦
      let same : k ≡ j = (eq_iff k j).0 t in
      cc (lookup-delete_self k m d, ap (λ x. lookup x (delete k m)) same)
  | inr t ↦ sym (lookup-delete_ne k j m t) ∙ h
]

none_kept :
    (k j : String) (m : List (String × CacheEntry))
    → Distinct m
    → lookup j m ≡ none
    → lookup j (delete k m) ≡ none
none_kept k j m d h = elim (Bool-cases (str_eq k j)) [
  | inl t ↦
      let same : k ≡ j = (eq_iff k j).0 t in
      sym (ap (λ x. lookup x (delete k m)) same) ∙ lookup-delete_self k m d
  | inr t ↦ lookup-delete_ne k j m t ∙ h
]

pub store-entries :
    (c : MemoryCache) (key : String) (e : CacheEntry) (o : Option CacheEntry)
    → (store c key e o).entries ≡ insert key e c.entries
unfolding store
store-entries c key e none = refl
store-entries c key e (some x) = refl

pub locked-IsValid : (c : MemoryCache) (key : String) → IsValid c → IsValid (get_key_lock c key)
unfolding get_key_lock
locked-IsValid c key v = record {
  distinct = v.distinct;
  sized = v.sized;
  counted = v.counted;
  no_debt = v.no_debt;
  small = v.small;
  few = v.few;
}

pub noted-IsValid : (c : MemoryCache) → IsValid c → IsValid (note_size c)
unfolding note_size
noted-IsValid c v = record {
  distinct = v.distinct;
  sized = v.sized;
  counted = v.counted;
  no_debt = v.no_debt;
  small = v.small;
  few = v.few;
}

module _ (order : RangeOrder CacheEntry) where
  pub stops :
      (fuel : ℕ) (c : MemoryCache)
      → over_limit c ≡ false
      → evict_if_needed order (suc fuel) c ≡ done c
  unfolding evict_if_needed
  stops fuel c t = rw (t, evict_if_needed)

  rounds :
      (fuel : ℕ) (c d : MemoryCache)
      → over_limit c ≡ true
      → evict_lru order c ≡ some d
      → evict_if_needed order (suc fuel) c ≡ evict_if_needed order fuel d
  unfolding evict_if_needed
  rounds fuel c d t s = rw (t, evict_if_needed) (rw (s, evict_if_needed))

  Settles-after :
      (c d c' : MemoryCache) (key : String)
      → IsValid c
      → Evicts c d key
      → Settles d c'
      → Settles c c'
  Settles-after c d c' key v x s = record {
    valid = s.valid;
    within = s.within;
    limits = (s.limits.0 ∙ x.limits.0, s.limits.1 ∙ x.limits.1);
    kept = λ j e h.
        delete_kept key j c.entries e v.distinct (ap (lookup j) (sym x.entries) ∙ s.kept j e h);
  }

  evict_if_needed_done :
      (fuel : ℕ) (c : MemoryCache)
      → length c.entries < fuel
      → IsValid c
      → lookup "" c.entries ≡ none
      → (c' : MemoryCache) × (evict_if_needed order fuel c ≡ done c') × Settles c c'
  evict_if_needed_done zero c h v n = elim h [ ]
  evict_if_needed_done (suc fuel) c h v n = elim (Bool-cases (over_limit c)) [
    | inr t ↦ (
      c,
      stops fuel c t,
      record { valid = v; within = t; limits = (refl, refl); kept = λ j e s. s },
    )
    | inl t ↦ elim (evict_lru-Evicts order c v n) [
      | inl (e, s) ↦ cc (empty_within c v e)
      | inr (key, d, s, x) ↦
          let n' : lookup "" d.entries ≡ none =
            ap (lookup "") x.entries ∙ none_kept key "" c.entries v.distinct n in
          let (c', ends, settled) =
            evict_if_needed_done fuel d (omega (arith, x.shorter)) x.valid n' in
          (c', rounds fuel c d t s ∙ ends, Settles-after c d c' key v x settled)
    ]
  ]

  pub set-Settles :
      (c : MemoryCache) (key : String) (value : List ℕ) (ttl : Duration) (now : Time)
      → IsValid c
      → lookup "" c.entries ≡ none
      → str_eq key "" ≡ false
      → Fits c (length value)
      → (c' : MemoryCache) × (set order c key value ttl now ≡ done c')
        × IsValid c'
        × (over_limit c' ≡ false)
        × (c'.stats.size ≡ c'.current_size)
        × ((j : String)
            → (lookup j c'.entries ≡ none)
              ⊎ (lookup j c'.entries
                  ≡ (if str_eq key j then some (make_entry value ttl now) else lookup j c.entries)))
  unfolding set finish note_size get_key_lock over_limit
  set-Settles c key value ttl now v n named f =
      let locked = get_key_lock c key in
      let e = make_entry value ttl now in
      let stored = store locked key e (lookup key locked.entries) in
      let entries = store-entries locked key e (lookup key locked.entries) in
      let valid =
        store-IsValid locked key e (length value) (lookup key locked.entries)
          (locked-IsValid c key v) refl (unfold make_entry in refl) f in
      let n' : lookup "" stored.entries ≡ none =
        ap (lookup "") entries ∙ lookup-insert key "" e c.entries ∙ rw named n in
      let (c', ends, s) =
        evict_if_needed_done (suc (length stored.entries)) stored (omega arith) valid n' in
      (
        note_size c',
        ap finish ends,
        noted-IsValid c' s.valid,
        s.within,
        refl,
        λ j. elim (Option-cases (lookup j c'.entries)) [
          | inl gone ↦ inl gone
          | inr (x, h) ↦
              inr (h ∙ sym (s.kept j x h) ∙ ap (lookup j) entries ∙ lookup-insert key j e c.entries)
        ],
      )

oldest_empty :
    (m : List (String × CacheEntry)) (time : Time)
    → ((k : String) (e : CacheEntry) → lookup k m ≡ some e → k ≡ "")
    → oldest m "" time ≡ ""
unfolding oldest lookup
oldest_empty [] time h = refl
oldest_empty ((k, e) ∷ m) time h =
    let empty : k ≡ "" = h k e (rw ((eq_iff k k).1 refl)) in
    rw empty (
      oldest_empty m e.accessed_at λ j x s. elim (Bool-cases (str_eq k j)) [
        | inl t ↦ let same : k ≡ j = (eq_iff k j).0 t in sym same ∙ empty
        | inr t ↦ h j x (rw t s)
      ])

module _ (order : RangeOrder CacheEntry) where
  keeps_empty :
      (c : MemoryCache) (e : CacheEntry) → c.entries ≡ ("", e) ∷ [] → evict_lru order c ≡ some c
  unfolding evict_lru
  keeps_empty c e h = rw (
      oldest_empty (order.range c.entries) zero_time
        λ k x s. only_empty k x (sym (ap (lookup k) h) ∙ sym (order.lookup-range k c.entries) ∙ s))
    where
      only_empty : (k : String) (x : CacheEntry) → lookup k (("", e) ∷ []) ≡ some x → k ≡ ""
      only_empty k x s = unfold lookup in ground (arith, eq_iff "" k)

  -- A cache that is over a limit and holds only an entry under the empty key is never done: the
  -- eviction takes the empty key for no key, and every number of rounds leaves the loop going.
  pub evict_if_needed_forever :
      (fuel : ℕ) (c : MemoryCache) (e : CacheEntry)
      → c.entries ≡ ("", e) ∷ []
      → over_limit c ≡ true
      → evict_if_needed order fuel c ≡ looping c
  unfolding evict_if_needed
  evict_if_needed_forever zero c e h t = refl
  evict_if_needed_forever (suc fuel) c e h t =
      rounds order fuel c c t (keeps_empty c e h) ∙ evict_if_needed_forever fuel c e h t
