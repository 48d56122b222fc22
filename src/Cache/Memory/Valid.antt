-- ===== src/Cache/Memory/Valid.antt =====
-- pkg/cache/cache.go, type MemoryCache: the size and the count of items that the cache keeps.
use pin_go.Base.{
  ℕ, suc, ◌+◌, ◌^◌, ◌<◌, ◌≤◌, String, ◌≡◌, refl, ap, ◌∙◌, Option, none, some, ℤ, pos, pos_part,
  neg_part, ◌+ℤ◌, ◌-ℤ◌, +ℤ_parts, -ℤ_parts, int64, int64_id, Time, length, arith, Bool-cases, inl,
  inr,
}
use pin_go.Base.Dict.{
  lookup, delete, Distinct, total, total-delete-some, total-insert-some, total-insert-none,
  length-total, insert-Distinct, delete-Distinct,
}
use pin_go.Cache.Memory.{
  CacheEntry, MemoryCache, memory_cache, remove, note_size, delete_key, hit, get_entry, get, miss,
  clear, is_expired, store, evicted,
}

abbrev pub entry_size : CacheEntry → ℕ
entry_size e = pos_part e.size

abbrev pub debt : CacheEntry → ℕ
debt e = neg_part e.size

abbrev pub one : CacheEntry → ℕ
one e = 1

-- The sizes are not negative, and their sum and the count of entries stay below 2 ^ 63.
pub record IsValid (c : MemoryCache) : Type 0 where
  pub distinct : Distinct c.entries
  pub sized : c.current_size ≡ pos (total entry_size c.entries)
  pub counted : c.stats.item_count ≡ pos (total one c.entries)
  pub no_debt : total debt c.entries ≡ 0
  pub small : total entry_size c.entries < 2 ^ 63
  pub few : total one c.entries < 2 ^ 63

pub memory_cache-IsValid : (max_size max_items : ℤ) → IsValid (memory_cache max_size max_items)
unfolding memory_cache
memory_cache-IsValid max_size max_items = record {
  distinct = tt;
  sized = refl;
  counted = refl;
  no_debt = refl;
  small = omega arith;
  few = omega arith;
}

-- Taking an entry that is there off the map and off the two counts.
pub record Removes (c : MemoryCache) (key : String) (e : CacheEntry) : Type 0 where
  pub size_left : int64 (c.current_size -ℤ e.size) ≡ pos (total entry_size (delete key c.entries))
  pub count_left : int64 (c.stats.item_count -ℤ pos 1) ≡ pos (total one (delete key c.entries))
  pub no_debt_left : total debt (delete key c.entries) ≡ 0
  pub shrinks : total entry_size (delete key c.entries) ≤ total entry_size c.entries
  pub one_less : suc (total one (delete key c.entries)) ≡ total one c.entries

pub removes :
    (c : MemoryCache) (key : String) (e : CacheEntry)
    → IsValid c
    → lookup key c.entries ≡ some e
    → Removes c key e
removes c key e v h =
    let size = total-delete-some entry_size key e c.entries h in
    let owed = total-delete-some debt key e c.entries h in
    let count = total-delete-some one key e c.entries h in
    record {
      size_left = ground (
        arith,
        v.sized,
        v.no_debt,
        v.small,
        size,
        owed,
        -ℤ_parts c.current_size e.size,
        int64_id (c.current_size -ℤ e.size),
      );
      count_left = ground (
        arith,
        v.counted,
        v.few,
        count,
        -ℤ_parts c.stats.item_count (pos 1),
        int64_id (c.stats.item_count -ℤ pos 1),
      );
      no_debt_left = omega (arith, v.no_debt, owed);
      shrinks = omega (arith, size);
      one_less = omega (arith, count);
    }

evicted-IsValid :
    (c c' : MemoryCache) (key : String) (e : CacheEntry)
    → IsValid c
    → lookup key c.entries ≡ some e
    → c'.entries ≡ delete key c.entries
    → c'.current_size ≡ int64 (c.current_size -ℤ e.size)
    → c'.stats.item_count ≡ int64 (c.stats.item_count -ℤ pos 1)
    → IsValid c'
evicted-IsValid c c' key e v h entries size count =
    let r = removes c key e v h in
    record {
      distinct = rw entries (delete-Distinct key c.entries v.distinct);
      sized = rw entries (size ∙ r.size_left);
      counted = rw entries (count ∙ r.count_left);
      no_debt = rw entries r.no_debt_left;
      small = rw entries (omega (arith, r.shrinks, v.small));
      few = rw entries (omega (arith, r.one_less, v.few));
    }

pub evicted_lem :
    (c : MemoryCache) (key : String) (e : CacheEntry)
    → IsValid c
    → lookup key c.entries ≡ some e
    → IsValid (evicted c key e) × (suc (length (evicted c key e).entries) ≡ length c.entries)
unfolding evicted
evicted_lem c key e v h = (
  evicted-IsValid c (evicted c key e) key e v h refl refl refl,
  omega (
    arith,
    length-total (delete key c.entries),
    length-total c.entries,
    (removes c key e v h).one_less,
  ),
)

remove-IsValid :
    (c : MemoryCache) (key : String) (o : Option CacheEntry)
    → IsValid c
    → lookup key c.entries ≡ o
    → IsValid (remove c key o)
unfolding remove
remove-IsValid c key none v h = v
remove-IsValid c key (some e) v h =
    evicted-IsValid c (remove c key (some e)) key e v h refl refl refl

note_size-IsValid : (c : MemoryCache) → IsValid c → IsValid (note_size c)
unfolding note_size
note_size-IsValid c v = record {
  distinct = v.distinct;
  sized = v.sized;
  counted = v.counted;
  no_debt = v.no_debt;
  small = v.small;
  few = v.few;
}

-- Delete keeps the counts right.
pub delete_key-IsValid : (c : MemoryCache) (key : String) → IsValid c → IsValid (delete_key c key)
unfolding delete_key
delete_key-IsValid c key v =
    note_size-IsValid _ (remove-IsValid c key (lookup key c.entries) v refl)

pub hit-IsValid :
    (c : MemoryCache) (key : String) (e : CacheEntry) (now : Time)
    → IsValid c
    → lookup key c.entries ≡ some e
    → IsValid (hit c key e now)
unfolding hit
hit-IsValid c key e now v h =
    let e' = record e { accessed_at = now } in
    let size = total-insert-some entry_size key e' e c.entries h in
    let owed = total-insert-some debt key e' e c.entries h in
    let count = total-insert-some one key e' e c.entries h in
    record {
      distinct = insert-Distinct key e' c.entries v.distinct;
      sized = v.sized ∙ ap pos (omega (arith, size));
      counted = v.counted ∙ ap pos (omega (arith, count));
      no_debt = omega (arith, owed, v.no_debt);
      small = omega (arith, size, v.small);
      few = omega (arith, count, v.few);
    }

pub miss-IsValid : (c : MemoryCache) → IsValid c → IsValid (miss c)
unfolding miss
miss-IsValid c v = record {
  distinct = v.distinct;
  sized = v.sized;
  counted = v.counted;
  no_debt = v.no_debt;
  small = v.small;
  few = v.few;
}

get_entry-IsValid :
    (c : MemoryCache) (key : String) (now later : Time) (o : Option CacheEntry)
    → IsValid c
    → lookup key c.entries ≡ o
    → IsValid (get_entry c key now later o).0
unfolding get_entry
get_entry-IsValid c key now later none v h = miss-IsValid c v
get_entry-IsValid c key now later (some e) v h = elim (Bool-cases (is_expired e now)) [
  | inl t ↦ rw t (miss-IsValid _ (delete_key-IsValid c key v))
  | inr t ↦ rw t (hit-IsValid c key e later v h)
]

-- Get keeps the counts right, whether it hits, misses or drops an expired entry.
pub get-IsValid :
    (c : MemoryCache) (key : String) (now later : Time)
    → IsValid c
    → IsValid (get c key now later).0
unfolding get
get-IsValid c key now later v = get_entry-IsValid c key now later (lookup key c.entries) v refl

pub clear-IsValid : (c : MemoryCache) → IsValid (clear c)
unfolding clear
clear-IsValid c = record {
  distinct = tt;
  sized = refl;
  counted = refl;
  no_debt = refl;
  small = omega arith;
  few = omega arith;
}

-- There is room below 2 ^ 63 for one more entry of this many bytes.
abbrev pub Fits : MemoryCache → ℕ → Type 0
Fits c n = (total entry_size c.entries + n < 2 ^ 63) × (total one c.entries + 1 < 2 ^ 63)

pub store-IsValid :
    (c : MemoryCache) (key : String) (e : CacheEntry) (n : ℕ) (o : Option CacheEntry)
    → IsValid c
    → lookup key c.entries ≡ o
    → e.size ≡ pos n
    → Fits c n
    → IsValid (store c key e o)
unfolding store
store-IsValid c key e n none v h s f =
    let size = total-insert-none entry_size key e c.entries h in
    let owed = total-insert-none debt key e c.entries h in
    let count = total-insert-none one key e c.entries h in
    record {
      distinct = insert-Distinct key e c.entries v.distinct;
      sized = ground (
        arith,
        s,
        size,
        v.sized,
        +ℤ_parts c.current_size e.size,
        int64_id (c.current_size +ℤ e.size),
      );
      counted = ground (
        arith,
        count,
        v.counted,
        +ℤ_parts c.stats.item_count (pos 1),
        int64_id (c.stats.item_count +ℤ pos 1),
      );
      no_debt = ground (arith, owed, v.no_debt, s);
      small = ground (arith, size, s);
      few = ground (arith, count);
    }
store-IsValid c key e n (some x) v h s f =
    let size = total-insert-some entry_size key e x c.entries h in
    let owed = total-insert-some debt key e x c.entries h in
    let count = total-insert-some one key e x c.entries h in
    let r = removes c key x v h in
    record {
      distinct = insert-Distinct key e c.entries v.distinct;
      sized = rw r.size_left (
          ground (
            arith,
            s,
            size,
            total-delete-some entry_size key x c.entries h,
            +ℤ_parts (pos (total entry_size (delete key c.entries))) e.size,
            int64_id (pos (total entry_size (delete key c.entries)) +ℤ e.size),
          ));
      counted = v.counted ∙ ap pos (omega (arith, count));
      no_debt = ground (arith, owed, v.no_debt, s);
      small = ground (arith, size, s);
      few = ground (arith, count);
    }
