-- ===== src/Cache/NoOp.antt =====
-- pkg/cache/cache.go, type NoOpCache: an instance of the interface that holds nothing.
use pin_go.Base.{none, pos}
use pin_go.Errors.{Error, cache_error, new}
use pin_go.Cache.Memory.{failed, CacheStats}
use pin_go.Cache.Contract.{Cache}

abbrev pub disabled : Error
disabled = new cache_error "cache disabled"

abbrev pub empty_stats : CacheStats
empty_stats = record {
  hits = pos 0;
  misses = pos 0;
  evictions = pos 0;
  size = pos 0;
  max_size = pos 0;
  item_count = pos 0;
  max_items = pos 0;
}

unfoldable pub no_op_cache : Cache
no_op_cache = record {
  Store = Unit {0};
  get = λ s k. (s, failed disabled);
  set = λ s k v ttl. (s, none);
  delete_key = λ s k. (s, none);
  clear = λ s. (s, none);
  stats = λ s. empty_stats;
  Holds = λ s k v. ⊥;
  get_found = λ s k v h. cc;
  get_only = λ s k j v h. h;
  set_only = λ s k v ttl j w h. absurd h;
  set_fresh = λ s k v ttl w e h. absurd h;
  delete_only = λ s k j v h. h;
  delete_gone = λ s k v h. h;
  clear_gone = λ s j v h. h;
}
