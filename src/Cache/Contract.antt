-- ===== src/Cache/Contract.antt =====
-- pkg/cache/cache.go, interface Cache: its operations, with the laws that a client relies on. The
-- clock that a method reads is part of the store. A cache may lose an entry at any time, but it
-- returns only what it holds, and an operation lets it hold nothing but what it says. A Delete and
-- a Clear always remove.
use pin_go.Base.{ℕ, String, ◌≡◌, ◌⊎◌, List, Option, none, Duration}
use pin_go.Errors.{Error}
use pin_go.Cache.Memory.{Reply, found, CacheStats}

pub record Cache : Type 1 where
  pub Store : Type 0
  pub get : Store → String → Store × Reply
  pub set : Store → String → List ℕ → Duration → Store × Option Error
  pub delete_key : Store → String → Store × Option Error
  pub clear : Store → Store × Option Error
  pub stats : Store → CacheStats
  pub Holds : Store → String → List ℕ → Type 0
  pub get_found : (s : Store) (k : String) (v : List ℕ) → (get s k).1 ≡ found v → Holds s k v
  pub get_only : (s : Store) (k j : String) (v : List ℕ) → Holds (get s k).0 j v → Holds s j v
  pub set_only :
      (s : Store) (k : String) (v : List ℕ) (ttl : Duration) (j : String) (w : List ℕ)
      → Holds (set s k v ttl).0 j w
      → (k ≡ j) × (w ≡ v) ⊎ Holds s j w
  pub set_fresh :
      (s : Store) (k : String) (v : List ℕ) (ttl : Duration) (w : List ℕ)
      → (set s k v ttl).1 ≡ none
      → Holds (set s k v ttl).0 k w
      → w ≡ v
  pub delete_only :
      (s : Store) (k j : String) (v : List ℕ) → Holds (delete_key s k).0 j v → Holds s j v
  pub delete_gone : (s : Store) (k : String) (v : List ℕ) → Holds (delete_key s k).0 k v → ⊥
  pub clear_gone : (s : Store) (j : String) (v : List ℕ) → Holds (clear s).0 j v → ⊥
