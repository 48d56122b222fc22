-- ===== src/Cache/Tiered/Tests.antt =====
-- pkg/cache/cache.go, type TieredCache, at concrete inputs: over two caches that keep everything.
use pin_go.Base.{
  ℕ, String, str_eq, eq_iff, ◌≡◌, ◌⊎◌, inl, inr, refl, List, [], ◌∷◌, Option, none, some,
  if◌then◌else◌, Bool-cases, sym,
}
use mathlib.Core.Option.{some-injective}
use pin_go.Cache.Memory.{Reply, found, failed, not_found}
use pin_go.Cache.Contract.{Cache}
use pin_go.Cache.NoOp.{empty_stats, no_op_cache}
use pin_go.Cache.Tiered.{Tiered, new_tiered_cache, get}

abbrev Kept : Type 0
Kept = String → Option (List ℕ)

abbrev reply : Option (List ℕ) → Reply
reply none = failed not_found
reply (some v) = found v

reply-found : (o : Option (List ℕ)) (v : List ℕ) → reply o ≡ found v → o ≡ some v
reply-found none v h = cc
reply-found (some w) v h = cc

abbrev put : Kept → String → Option (List ℕ) → Kept
put s k o j = if str_eq k j then o else s j

put_only :
    (s : Kept) (k j : String) (v w : List ℕ)
    → put s k (some v) j ≡ some w
    → (k ≡ j) × (w ≡ v) ⊎ (s j ≡ some w)
put_only s k j v w h = elim (Bool-cases (str_eq k j)) [
  | inl t ↦ inl ((eq_iff k j).0 t, sym (some-injective _ _ (rw t at h)))
  | inr t ↦ inr (rw t at h)
]

put_fresh : (s : Kept) (k : String) (v w : List ℕ) → put s k (some v) k ≡ some w → w ≡ v
put_fresh s k v w h = sym (some-injective _ _ (rw ((eq_iff k k).1 refl) at h))

put_less : (s : Kept) (k j : String) (w : List ℕ) → put s k none j ≡ some w → s j ≡ some w
put_less s k j w h = elim (Bool-cases (str_eq k j)) [ inl t ↦ cc (rw t at h) | inr t ↦ rw t at h ]

put_gone : (s : Kept) (k : String) (w : List ℕ) → put s k none k ≡ some w → ⊥
put_gone s k w h = cc (rw ((eq_iff k k).1 refl) at h)

none_held : (v : List ℕ) → ◌≡◌ {A = Option (List ℕ)} none (some v) → ⊥
none_held v h = cc

abbrev keeping : Cache
keeping = record {
  Store = Kept;
  get = λ s k. (s, reply (s k));
  set = λ s k v ttl. (put s k (some v), none);
  delete_key = λ s k. (put s k none, none);
  clear = λ s. (λ j. none, none);
  stats = λ s. empty_stats;
  Holds = λ s k v. s k ≡ some v;
  get_found = λ s k v h. reply-found (s k) v h;
  get_only = λ s k j v h. h;
  set_only = λ s k v ttl j w h. put_only s k j v w h;
  set_fresh = λ s k v ttl w e h. put_fresh s k v w h;
  delete_only = λ s k j v h. put_less s k j v h;
  delete_gone = λ s k v h. put_gone s k v h;
  clear_gone = λ s j v h. none_held v h;
}

abbrev start : Tiered keeping keeping
start = record { l1 = λ j. none; l2 = λ j. if str_eq j "a" then some (1 ∷ []) else none }

promotes : (get keeping keeping start "a").0.l1 "a" ≡ some (1 ∷ [])
unfolding get
promotes = refl

abbrev nothing : no_op_cache.Store
unfolding no_op_cache
nothing = tt

passes_through :
    (get no_op_cache keeping (new_tiered_cache no_op_cache keeping nothing start.l2) "a").1
    ≡ found (1 ∷ [])
unfolding get no_op_cache new_tiered_cache
passes_through = refl
