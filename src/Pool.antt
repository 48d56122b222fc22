-- ===== src/Pool.antt =====
-- pkg/pool/pool.go: the configuration of the two connection pools. A connection is the number that
-- names it. What a dial or the Close of a connection brings is an argument.
pub mod Http
pub mod Tcp
use pin_go.Base.{ℕ, String, List, Option, ℤ, pos, ◌*ℤ◌, Duration, second}
use pin_go.Errors.{Error, Cause}

pub record PoolConfig : Type 0 where
  pub max_idle_conns : ℤ
  pub max_conns_per_host : ℤ
  pub keep_alive : Duration
  pub connect_timeout : Duration
  pub idle_timeout : Duration

unfoldable pub default_pool_config : PoolConfig
default_pool_config = record {
  max_idle_conns = pos 100;
  max_conns_per_host = pos 10;
  keep_alive = pos 30 *ℤ second;
  connect_timeout = pos 10 *ℤ second;
  idle_timeout = pos 90 *ℤ second;
}

pub record PoolStats : Type 0 where
  pub max_idle_conns : ℤ
  pub max_conns_per_host : ℤ
  pub current_idle_conns : ℤ
  pub active_conns : ℤ
  pub total_conns : ℤ

abbrev pub or_default : Option PoolConfig → PoolConfig
or_default Option.none = default_pool_config
or_default (Option.some c) = c

-- What `dialer.Dial` returns.
pub data Dialed : Type 0 where
  dialed : ℕ → Dialed
  refused : String → Dialed

-- What `GetConnection` returns; `crashed` is a panic.
pub data Connected : Type 0 where
  connection : ℕ → Connected
  failed : Error → Connected
  crashed : Connected
