-- ===== src/Cache/Tiered.antt =====
-- pkg/cache/cache.go, type TieredCache, over any two caches.
mod Freshness
mod Tests
use pin_go.Base.{ℕ, String, List, Option, none, some, ℤ, pos, ◌+ℤ◌, ◌*ℤ◌, int64, Duration, second}
use pin_go.Errors.{Error}
use pin_go.Cache.Memory.{Reply, found, failed, CacheStats}
use pin_go.Cache.Contract.{Cache}

abbrev hour : Duration
hour = pos 3_600_000_000_000

module _ (c1 c2 : Cache) where
  pub record Tiered : Type 0 where
    pub l1 : c1.Store
    pub l2 : c2.Store

  unfoldable pub new_tiered_cache : c1.Store → c2.Store → Tiered
  new_tiered_cache l1 l2 = record { l1 = l1; l2 = l2 }

  -- `Get` after the first cache has missed; the error of the Set into it is dropped.
  pub promote : Tiered → String → c2.Store × Reply → Tiered × Reply
  promote t key (l2, found value) =
      (record { l1 = (c1.set t.l1 key value hour).0; l2 = l2 }, found value)
  promote t key (l2, failed e) = (record { l1 = t.l1; l2 = l2 }, failed e)

  after_l1 : Tiered → String → c1.Store × Reply → Tiered × Reply
  unfolding promote
  after_l1 t key (l1, found value) = (record t { l1 = l1 }, found value)
  after_l1 t key (l1, failed e) = promote (record t { l1 = l1 }) key (c2.get t.l2 key)

  unfoldable pub get : Tiered → String → Tiered × Reply
  unfolding after_l1
  get t key = after_l1 t key (c1.get t.l1 key)

  -- `Set` after that of the first cache.
  set_l2 : Tiered → String → List ℕ → Duration → Option Error → Tiered × Option Error
  set_l2 t key value ttl none = let (l2, e) = c2.set t.l2 key value ttl in (record t { l2 = l2 }, e)
  set_l2 t key value ttl (some e) = (t, some e)

  unfoldable pub set : Tiered → String → List ℕ → Duration → Tiered × Option Error
  unfolding set_l2
  set t key value ttl =
      let (l1, e) = c1.set t.l1 key value ttl in set_l2 (record t { l1 = l1 }) key value ttl e

  unfoldable pub delete_key : Tiered → String → Tiered × Option Error
  delete_key t key =
      let (l2, e) = c2.delete_key t.l2 key in
      (record { l1 = (c1.delete_key t.l1 key).0; l2 = l2 }, e)

  unfoldable pub clear : Tiered → Tiered × Option Error
  clear t = let (l2, e) = c2.clear t.l2 in (record { l1 = (c1.clear t.l1).0; l2 = l2 }, e)

  unfoldable pub stats : Tiered → CacheStats
  stats t =
      let s1 = c1.stats t.l1 in
      let s2 = c2.stats t.l2 in
      record {
        hits = int64 (s1.hits +ℤ s2.hits);
        misses = int64 (s1.misses +ℤ s2.misses);
        evictions = int64 (s1.evictions +ℤ s2.evictions);
        size = int64 (s1.size +ℤ s2.size);
        max_size = int64 (s1.max_size +ℤ s2.max_size);
        item_count = int64 (s1.item_count +ℤ s2.item_count);
        max_items = int64 (s1.max_items +ℤ s2.max_items);
      }
