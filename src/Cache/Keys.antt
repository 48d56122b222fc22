-- ===== src/Cache/Keys.antt =====
-- pkg/cache/cache.go, type CacheKey. The bytes that are written to the digest are a text. crypto/md5
-- with the hexadecimal text of its sum is a parameter, and so is the order of the `range` of a
-- call: each call has its own.
mod Collisions
mod Tests
use Prim.Native.String.{◌++◌}
use pin_go.Base.{String, []}
use pin_go.Base.{List, ◌∷◌}
use pin_go.Base.Dict.{Entries, RangeOrder}

pub record CacheKey : Type 0 where
  pub method : String
  pub uri : String
  pub headers : Entries String

unfoldable pub new_cache_key : String → String → Entries String → CacheKey
new_cache_key method uri headers = record { method = method; uri = uri; headers = headers }

-- The loop over the headers.
pub written_headers : Entries String → String
written_headers [] = ""
written_headers ((name, value) ∷ h) = name ++ (value ++ written_headers h)

module _ (digest : String → String) (order : RangeOrder String) where
  pub written : CacheKey → String
  unfolding written_headers
  written k = k.method ++ (k.uri ++ written_headers (order.range k.headers))

  unfoldable pub cache_key_text : CacheKey → String
  unfolding written
  cache_key_text k = digest (written k)
