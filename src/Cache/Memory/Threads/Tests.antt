-- ===== src/Cache/Memory/Threads/Tests.antt =====
-- pkg/cache/cache.go, type MemoryCache: Gets among other calls, at concrete inputs.
use pin_go.Base.{
  ℕ, String, ◌≡◌, refl, List, [], ◌∷◌, Option, none, some, pos, ◌+ℤ◌, ◌-ℤ◌, int64, All, arith, ◌⊎◌,
  inl, inr,
}
use pin_go.Base.Dict.{lookup, insert, delete, RangeOrder}
use pin_go.Cache.Memory.{
  CacheEntry, memory_cache, evict_if_needed, set, get_key_lock, make_entry, is_expired, over_limit,
  delete_key, Reply, failed, key_expired,
}
use pin_go.Cache.Memory.Valid.{IsValid}
use pin_go.Cache.Memory.Threads.{Machine, Event, begins, goes_on, sets, start_with, step, run}
use pin_go.Cache.Memory.Threads.Races.{Answered, AllAsked, run-Answered}

program : Unit {0}
unfolding lookup insert delete is_expired over_limit set make_entry int64 ◌+ℤ◌ ◌-ℤ◌ delete_key step
    run get_key_lock memory_cache evict_if_needed
program = tt

abbrev in_order : RangeOrder CacheEntry
in_order = record { range = λ m. m; lookup-range = λ k m. refl; range-Distinct = λ m d. d }

-- A Get finds the entry of the key expired, a Set stores a new value, and the Get goes on.
abbrev race : List Event
race =
    sets "a" (7 ∷ []) (pos 1) (pos 10)
    ∷ begins "a" (pos 20)
    ∷ sets "a" (8 ∷ 8 ∷ []) (pos 0) (pos 21)
    ∷ goes_on 0 (pos 22)
    ∷ goes_on 0 (pos 23)
    ∷ []

abbrev final : Option Machine
final = run in_order (start_with (memory_cache (pos 5) (pos 10))) race

abbrev left_over : Option Machine → List (String × CacheEntry) × List (String × Reply)
left_over none = ([], [])
left_over (some m) = (m.cache.entries, m.answers)

-- The Get has deleted the entry that is not expired.
fresh_entry_gone : left_over final ≡ ([], ("a", failed key_expired) ∷ [])
unfolding program
fresh_entry_gone = refl

abbrev SevenOrEights : String → List ℕ → Type 0
SevenOrEights key value = (value ≡ 7 ∷ []) ⊎ (value ≡ 8 ∷ 8 ∷ [])

all_asked : AllAsked in_order SevenOrEights (start_with (memory_cache (pos 5) (pos 10))) race
unfolding program
all_asked = (
  (refl, (omega arith, omega arith), inl refl),
  (tt, ((refl, (omega arith, omega arith), inr refl), (tt, (tt, tt)))),
)

run-Answered_example :
    (m : Machine) × (run in_order (start_with (memory_cache (pos 5) (pos 10))) race ≡ some m)
    × IsValid m.cache
    × All (Answered in_order SevenOrEights) m.answers
run-Answered_example = run-Answered in_order SevenOrEights (pos 5) (pos 10) race all_asked
