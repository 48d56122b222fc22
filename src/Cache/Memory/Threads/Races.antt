-- ===== src/Cache/Memory/Threads/Races.antt =====
-- pkg/cache/cache.go, type MemoryCache: what holds however its methods are interleaved.
use pin_go.Base.{
  ◌⊎◌, ℕ, zero, suc, String, str_eq, eq_iff, ◌≡◌, refl, sym, ap, ◌∙◌, Bool-cases, inl, inr, false,
  List, [], ◌∷◌, Option, none, some, Option-cases, All, All-get_elem?, get_elem?, length, ℤ, Time,
  Duration, arith, if◌then◌else◌,
}
use mathlib.Core.Option.{some-injective}
use mathlib.Core.Path.{subst}
use pin_go.Base.Dict.{RangeOrder, lookup, lookup-insert, lookup-delete}
use pin_go.Cache.Memory.{
  CacheEntry, MemoryCache, make_entry, memory_cache, miss, hit, note_size, remove, delete_key,
  clear, set, is_expired, Reply, found, failed,
}
use pin_go.Cache.Memory.Valid.{
  IsValid, memory_cache-IsValid, Fits, hit-IsValid, miss-IsValid, delete_key-IsValid, clear-IsValid,
}
use pin_go.Cache.Memory.Eviction.{set-Settles}
use pin_go.Cache.Memory.Threads.{
  Reader, missing, expired, late, live, Machine, Event, begins, goes_on, sets, deletes, clears,
  start_with, read_entry, same_object, count_hit, touch, advance, onto, put_reader, proceed,
  after_set, step, run,
}

-- `Written` is a property that each call of Set has, of its key and its value.
module _ (order : RangeOrder CacheEntry) (Written : String → List ℕ → Type 0) where
  record Sound (c : MemoryCache) : Type 0 where
    valid : IsValid c
    named : lookup "" c.entries ≡ none
    values : (key : String) (e : CacheEntry) → lookup key c.entries ≡ some e → Written key e.value

  same_entries-Sound : (c d : MemoryCache) → c.entries ≡ d.entries → IsValid d → Sound c → Sound d
  same_entries-Sound c d e v s = record {
    valid = v;
    named = ap (lookup "") (sym e) ∙ s.named;
    values = λ key x h. s.values key x (ap (lookup key) e ∙ h);
  }

  no_empty_key :
      (c : MemoryCache) (key : String) (e : CacheEntry)
      → lookup key c.entries ≡ some e
      → lookup "" c.entries ≡ none
      → str_eq key "" ≡ false
  no_empty_key c key e h n = elim (Bool-cases (str_eq key "")) [
    | inl t ↦ cc (sym h ∙ ap (λ x. lookup x c.entries) ((eq_iff key "").0 t) ∙ n)
    | inr t ↦ t
  ]

  -- One entry is stored, and the others stay or go.
  stored-Sound :
      (c d : MemoryCache) (key : String) (e : CacheEntry)
      → str_eq key "" ≡ false
      → Written key e.value
      → Sound c
      → IsValid d
      → ((j : String)
          → (lookup j d.entries ≡ none)
            ⊎ (lookup j d.entries ≡ (if str_eq key j then some e else lookup j c.entries)))
      → Sound d
  stored-Sound c d key e named w s v h = record {
    valid = v;
    named = elim (h "") [ inl f ↦ f | inr f ↦ f ∙ rw named s.named ];
    values = λ j x g. elim (h j) [
      | inl f ↦ cc (sym f ∙ g)
      | inr f ↦ elim (Bool-cases (str_eq key j)) [
        | inl t ↦
            let new : e ≡ x = some-injective _ _ (ground (arith, f, g, t)) in
            subst (λ k. Written k x.value) ((eq_iff key j).0 t)
              (subst (λ y. Written key y.value) new w)
        | inr t ↦ s.values j x (ground (arith, f, g, t))
      ]
    ];
  }

  hit-Sound :
      (c : MemoryCache) (key : String) (e : CacheEntry) (later : Time)
      → lookup key c.entries ≡ some e
      → Sound c
      → Sound (hit c key e later)
  hit-Sound c key e later h s =
      stored-Sound c (hit c key e later) key (record e { accessed_at = later })
        (no_empty_key c key e h s.named) (s.values key e h) s (hit-IsValid c key e later s.valid h)
        (λ j. inr (unfold hit in lookup-insert key j _ c.entries))

  delete_key-entries :
      (c : MemoryCache) (key j : String)
      → IsValid c
      → lookup j (delete_key c key).entries ≡ (if str_eq key j then none else lookup j c.entries)
  unfolding delete_key remove note_size
  delete_key-entries c key j v = elim (Option-cases (lookup key c.entries)) [
    | inl f ↦
        rw (f, remove)
          (elim (Bool-cases (str_eq key j)) [
            | inl t ↦ rw t (ap (λ x. lookup x c.entries) (sym ((eq_iff key j).0 t)) ∙ f)
            | inr t ↦ rw t refl
          ])
    | inr (e, f) ↦ rw (f, remove) (lookup-delete key j c.entries v.distinct)
  ]

  delete_key-Sound : (c : MemoryCache) (key : String) → Sound c → Sound (delete_key c key)
  delete_key-Sound c key s = record {
    valid = delete_key-IsValid c key s.valid;
    named = delete_key-entries c key "" s.valid ∙ ground (arith, s.named);
    values = λ j x g. s.values j x (ground (arith, delete_key-entries c key j s.valid, g));
  }

  clear-Sound : (c : MemoryCache) → Sound (clear c)
  unfolding clear lookup
  clear-Sound c = record { valid = clear-IsValid c; named = refl; values = λ key e h. cc h }

  count_hit-IsValid : (c : MemoryCache) → IsValid c → IsValid (count_hit c)
  unfolding count_hit
  count_hit-IsValid c v = record {
    distinct = v.distinct;
    sized = v.sized;
    counted = v.counted;
    no_debt = v.no_debt;
    small = v.small;
    few = v.few;
  }

  count_hit-Sound : (c : MemoryCache) → Sound c → Sound (count_hit c)
  count_hit-Sound c s =
      same_entries-Sound c (count_hit c) (unfold count_hit in refl) (count_hit-IsValid c s.valid) s

  miss-Sound : (c : MemoryCache) → Sound c → Sound (miss c)
  miss-Sound c s = same_entries-Sound c (miss c) (unfold miss in refl) (miss-IsValid c s.valid) s

  touch-Sound :
      (m : Machine) (key : String) (n : ℕ) (later : Time) (o : Option CacheEntry)
      → lookup key m.cache.entries ≡ o
      → Sound m.cache
      → Sound (touch m key n later o)
  unfolding touch
  touch-Sound m key n later none h s = count_hit-Sound m.cache s
  touch-Sound m key n later (some e) h s =
      elim (Bool-cases (same_object n (lookup key m.objects))) [
        | inl t ↦ rw t (hit-Sound m.cache key e later h s)
        | inr t ↦ rw t (count_hit-Sound m.cache s)
      ]

  -- A reader has an entry with a value that a Set had, and so does each answer.
  abbrev Reads : Reader → Type 0
  Reads (missing key) = Unit {0}
  Reads (expired key) = Unit {0}
  Reads (late key) = Unit {0}
  Reads (live key e n) = Written key e.value

  abbrev pub Answered : String × Reply → Type 0
  Answered (key, found value) = Written key value
  Answered (key, failed e) = Unit {0}

  abbrev May : {A : Type 0} → (A → Type 0) → Option A → Type 0
  May P none = Unit {0}
  May P (some x) = P x

  advance-Sound :
      (m : Machine) (later : Time) (r : Reader)
      → Sound m.cache
      → Reads r
      → Sound (advance m later r).0
        × May Reads (advance m later r).1
        × May Answered (advance m later r).2
  unfolding advance
  advance-Sound m later (missing key) s h = (miss-Sound m.cache s, tt, tt)
  advance-Sound m later (expired key) s h = (delete_key-Sound m.cache key s, tt, tt)
  advance-Sound m later (late key) s h = (miss-Sound m.cache s, tt, tt)
  advance-Sound m later (live key e n) s h =
      (touch-Sound m key n later (lookup key m.cache.entries) refl s, tt, h)

  onto-All :
      {A : Type 0} (P : A → Type 0) (o : Option A) (xs : List A)
      → May P o
      → All P xs
      → All P (onto o xs)
  onto-All P none xs h a = a
  onto-All P (some x) xs h a = (h, a)

  put_reader-All :
      (i : ℕ) (o : Option Reader) (rs : List Reader)
      → May Reads o
      → All Reads rs
      → All Reads (put_reader i o rs)
  unfolding put_reader
  put_reader-All i o [] h a = tt
  put_reader-All zero o (r ∷ rs) h a = onto-All Reads o rs h a.1
  put_reader-All (suc i) o (r ∷ rs) h a = (a.0, put_reader-All i o rs h a.1)

  record Safe (m : Machine) : Type 0 where
    sound : Sound m.cache
    reading : All Reads m.readers
    answered : All Answered m.answers

  proceed-Safe :
      (m : Machine) (i : ℕ) (later : Time) (o : Option Reader)
      → get_elem? m.readers i ≡ o
      → Safe m
      → Safe (proceed m i later o)
  unfolding proceed
  proceed-Safe m i later none e s = s
  proceed-Safe m i later (some r) e s =
      let (sound, reads, answers) =
        advance-Sound m later r s.sound (All-get_elem? Reads m.readers i s.reading e) in
      record {
        sound = sound;
        reading = put_reader-All i _ m.readers reads s.reading;
        answered = onto-All Answered _ m.answers answers s.answered;
      }

  read_entry-Reads :
      (m : Machine) (key : String) (now : Time) (o : Option CacheEntry)
      → lookup key m.cache.entries ≡ o
      → Sound m.cache
      → Reads (read_entry m key now o)
  unfolding read_entry
  read_entry-Reads m key now none h s = tt
  read_entry-Reads m key now (some e) h s = elim (Bool-cases (is_expired e now)) [
    | inl t ↦ rw t tt
    | inr t ↦ rw t (s.values key e h)
  ]

  -- What a call of Set is asked for: a key, a value that still fits, and the property.
  abbrev pub Asked : Machine → Event → Type 0
  Asked m (begins key now) = Unit {0}
  Asked m (goes_on i later) = Unit {0}
  Asked m (sets key value ttl now) =
      (str_eq key "" ≡ false) × Fits m.cache (length value) × Written key value
  Asked m (deletes key) = Unit {0}
  Asked m clears = Unit {0}

  abbrev pub Then : Option Machine → (Machine → Type 0) → Type 0
  Then none P = Unit {0}
  Then (some m) P = P m

  abbrev pub AllAsked : Machine → List Event → Type 0
  AllAsked m [] = Unit {0}
  AllAsked m (e ∷ es) = Asked m e × Then (step order m e) (λ m'. AllAsked m' es)

  set-Safe :
      (m : Machine) (key : String) (value : List ℕ) (ttl : Duration) (now : Time)
      → Asked m (sets key value ttl now)
      → Safe m
      → (m' : Machine) × (after_set m key (set order m.cache key value ttl now) ≡ some m') × Safe m'
  unfolding after_set
  set-Safe m key value ttl now (named, fits, w) s =
      let (c, ends, valid, within, noted, kept) =
        set-Settles order m.cache key value ttl now s.sound.valid s.sound.named named fits in
      let sound =
        stored-Sound m.cache c key (make_entry value ttl now) named (unfold make_entry in w) s.sound
          valid kept in
      (
        _,
        ap (after_set m key) ends,
        record { sound = sound; reading = s.reading; answered = s.answered },
      )

  step-Safe :
      (m : Machine) (e : Event)
      → Asked m e
      → Safe m
      → (m' : Machine) × (step order m e ≡ some m') × Safe m'
  unfolding step
  step-Safe m (begins key now) a s = (
    _,
    refl,
    record {
      sound = s.sound;
      reading = (read_entry-Reads m key now (lookup key m.cache.entries) refl s.sound, s.reading);
      answered = s.answered;
    },
  )
  step-Safe m (goes_on i later) a s =
      (_, refl, proceed-Safe m i later (get_elem? m.readers i) refl s)
  step-Safe m (sets key value ttl now) a s = set-Safe m key value ttl now a s
  step-Safe m (deletes key) a s = (
    _,
    refl,
    record {
      sound = delete_key-Sound m.cache key s.sound;
      reading = s.reading;
      answered = s.answered;
    },
  )
  step-Safe m clears a s =
      (_, refl, record { sound = clear-Sound m.cache; reading = s.reading; answered = s.answered })

  run-Safe :
      (m : Machine) (es : List Event)
      → AllAsked m es
      → Safe m
      → (m' : Machine) × (run order m es ≡ some m') × Safe m'
  unfolding run
  run-Safe m [] a s = (m, refl, s)
  run-Safe m (e ∷ es) a s =
      let (m1, f, s1) = step-Safe m e a.0 s in
      let (m2, g, s2) = run-Safe m1 es (subst (λ o. Then o (λ m'. AllAsked m' es)) f a.1) s1 in
      (m2, rw (f, run) g, s2)

  memory_cache-Sound : (max_size max_items : ℤ) → Sound (memory_cache max_size max_items)
  memory_cache-Sound max_size max_items = record {
    valid = memory_cache-IsValid max_size max_items;
    named = unfold memory_cache lookup in refl;
    values = λ key e h. unfold memory_cache lookup in cc h;
  }

  -- However the steps of any number of Gets and the calls of Set, Delete and Clear on a new cache are
  -- interleaved, every Set ends, the size and the count of items are those of the entries, and a Get
  -- that answers with a value answers with one that a Set had for its key: what holds of the key and
  -- the value of each Set holds of those of each such answer. No Set has the empty key, and each
  -- value fits an int64 beside what the cache holds.
  pub run-Answered :
      (max_size max_items : ℤ) (es : List Event)
      → AllAsked (start_with (memory_cache max_size max_items)) es
      → (m : Machine) × (run order (start_with (memory_cache max_size max_items)) es ≡ some m)
        × IsValid m.cache
        × All Answered m.answers
  run-Answered max_size max_items es a =
      let (m, f, s) =
        run-Safe (start_with (memory_cache max_size max_items)) es a
          (record { sound = memory_cache-Sound max_size max_items; reading = tt; answered = tt }) in
      (m, f, s.sound.valid, s.answered)
