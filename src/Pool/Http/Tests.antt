-- ===== src/Pool/Http/Tests.antt =====
-- pkg/pool/pool.go, type HTTPConnectionPool, at concrete inputs.
use pin_go.Base.{◌≡◌, refl, none, pos, ◌*ℤ◌, second}
use pin_go.Pool.{default_pool_config}
use pin_go.Pool.Http.{new_http_pool, get_client, close}

idle_for : (get_client (new_http_pool none)).transport.idle_conn_timeout ≡ pos 90 *ℤ second
unfolding new_http_pool default_pool_config ◌*ℤ◌
idle_for = refl

closes_its_own : (close (new_http_pool none)).0 ≡ (get_client (new_http_pool none)).transport
unfolding close
closes_its_own = refl
