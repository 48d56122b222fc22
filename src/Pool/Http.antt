-- ===== src/Pool/Http.antt =====
-- pkg/pool/pool.go, type HTTPConnectionPool: a pool that dials for each request and keeps nothing. Of
-- its http.Client the settings are modelled.
mod Tests
use pin_go.Base.{ℕ, Bool, false, Option, none, some, ℤ, pos, ◌*ℤ◌, Duration, second}
use pin_go.Errors.{Error, Cause, foreign, connection_error, new_with_cause, or_err}
use pin_go.Pool.{
  PoolConfig, or_default, PoolStats, Dialed, dialed, refused, Connected, connection, failed,
}

-- The fields of the http.Transport that are set, with those of the net.Dialer of its DialContext.
pub record Transport : Type 0 where
  pub dial_timeout : Duration
  pub keep_alive : Duration
  pub max_idle_conns : ℤ
  pub max_idle_conns_per_host : ℤ
  pub idle_conn_timeout : Duration
  pub tls_handshake_timeout : Duration
  pub disable_compression : Bool

pub record HttpClient : Type 0 where
  pub transport : Transport
  pub timeout : Duration

pub record HttpPool : Type 0 where
  pub config : PoolConfig
  pub client : HttpClient

abbrev pub transport_of : PoolConfig → Transport
transport_of config = record {
  dial_timeout = config.connect_timeout;
  keep_alive = config.keep_alive;
  max_idle_conns = config.max_idle_conns;
  max_idle_conns_per_host = config.max_conns_per_host;
  idle_conn_timeout = config.idle_timeout;
  tls_handshake_timeout = pos 10 *ℤ second;
  disable_compression = false;
}

unfoldable pub new_http_pool : Option PoolConfig → HttpPool
new_http_pool c =
    let config = or_default c in
    record {
      config = config;
      client = record { transport = transport_of config; timeout = pos 30 *ℤ second };
    }

abbrev pub get_client : HttpPool → HttpClient
get_client p = p.client

-- The transport whose idle connections `Close` closes, and what it returns.
unfoldable pub close : HttpPool → Transport × Option Error
close p = (p.client.transport, none)

unfoldable pub get_connection : Dialed → Connected
get_connection (dialed c) = connection c
get_connection (refused text) =
    failed (new_with_cause connection_error "failed to dial" (foreign text))

-- `ReleaseConnection`, where `closed` is what the Close of the connection returns.
unfoldable pub release_connection : Option ℕ → Cause → Option Error
release_connection none closed = none
release_connection (some c) closed = or_err closed connection_error "failed to close connection"

unfoldable pub get_stats : PoolConfig → PoolStats
get_stats config = record {
  max_idle_conns = config.max_idle_conns;
  max_conns_per_host = config.max_conns_per_host;
  current_idle_conns = pos 0;
  active_conns = pos 0;
  total_conns = pos 0;
}
