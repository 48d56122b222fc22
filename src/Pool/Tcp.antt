-- ===== src/Pool/Tcp.antt =====
-- pkg/pool/pool.go, types TCPConnectionPool and hostPool. Each method is one step. The slice of idle
-- connections is a list with its last element first, since the pool takes and adds at that end.
mod Clients
mod Dialing
mod Sharing
mod Hosts
mod Tests
use pin_go.Base.{
  ℕ, zero, suc, String, Bool, true, false, List, [], ◌∷◌, Option, none, some, ℤ, pos, negsuc, ◌+ℤ◌,
  ◌-ℤ◌, leb_ℤ, int64, ltb, length, if◌then◌else◌,
}
use pin_go.Base.Dict.{lookup, insert}
use pin_go.Errors.{Error, Cause, foreign, connection_error, pool_error, new, new_with_cause, or_err}
use pin_go.Pool.{
  PoolConfig, PoolStats, or_default, Dialed, dialed, refused, Connected, connection, failed,
  crashed,
}

-- `capacity` is the cap of the slice.
pub record HostPool : Type 0 where
  pub address : String
  pub connections : List ℕ
  pub capacity : ℕ
  pub max_conns : ℤ
  pub active_conns : ℤ

pub record TcpPool : Type 0 where
  pub config : PoolConfig
  pub pools : List (String × HostPool)

unfoldable pub new_tcp_pool : Option PoolConfig → TcpPool
new_tcp_pool c = record { config = or_default c; pools = [] }

-- `&hostPool{...}`; `make` panics on a capacity below 0.
pub make_host_pool : String → ℤ → Option HostPool
make_host_pool address (negsuc n) = none
make_host_pool address (pos n) = some (record {
  address = address;
  connections = [];
  capacity = n;
  max_conns = pos n;
  active_conns = pos 0;
})

abbrev pub exhausted : Error
exhausted = new pool_error "connection pool exhausted"

dial : HostPool → Dialed → HostPool × Connected
dial h (refused text) =
    (h, failed (new_with_cause connection_error "failed to dial" (foreign text)))
dial h (dialed c) = (record h { active_conns = int64 (h.active_conns +ℤ pos 1) }, connection c)

take_idle : HostPool → List ℕ → Dialed → HostPool × Connected
unfolding dial
take_idle h [] d = if leb_ℤ h.max_conns h.active_conns then (h, failed exhausted) else dial h d
take_idle h (c ∷ cs) d =
    (record h { connections = cs; active_conns = int64 (h.active_conns +ℤ pos 1) }, connection c)

-- `GetConnection` from `pool.mu.Lock()` on.
unfoldable pub get_from : HostPool → Dialed → HostPool × Connected
unfolding take_idle
get_from h d = take_idle h h.connections d

-- `ReleaseConnection` from `pool.mu.Lock()` on; `closed` is what the Close of the connection returns.
unfoldable pub put_back : HostPool → ℕ → Cause → HostPool × Option Error
put_back h c closed =
    let h' = record h { active_conns = int64 (h.active_conns -ℤ pos 1) } in
    if ltb (length h.connections) h.capacity
    then (record h' { connections = c ∷ h.connections }, none)
    else (h', or_err closed connection_error "failed to close excess connection")

-- The pool of the address, made where there is none.
find_or_make : TcpPool → String → Option HostPool → Option HostPool
unfolding make_host_pool
find_or_make p address none = make_host_pool address p.config.max_conns_per_host
find_or_make p address (some h) = some h

pub host_of : TcpPool → String → Option HostPool
unfolding find_or_make
host_of p address = find_or_make p address (lookup address p.pools)

-- The pools of the map are pointers: what a method does to one is seen in the map.
abbrev store_host : TcpPool → String → HostPool × Connected → TcpPool × Connected
store_host p address (h, r) = (record p { pools = insert address h p.pools }, r)

unfoldable pub get_connection : TcpPool → String → Dialed → TcpPool × Connected
unfolding get_from host_of
get_connection p address d = elim (host_of p address) [
  | none ↦ (p, crashed)
  | some h ↦ store_host p address (get_from h d)
]

release_to : TcpPool → ℕ → String → Cause → Option HostPool → TcpPool × Option Error
unfolding put_back
release_to p c address closed none =
    (p, or_err closed connection_error "failed to close connection")
release_to p c address closed (some h) =
    let (h', e) = put_back h c closed in (record p { pools = insert address h' p.pools }, e)

-- `none` is a nil connection.
unfoldable pub release_connection : TcpPool → Option ℕ → String → Cause → TcpPool × Option Error
unfolding release_to
release_connection p none address closed = (p, none)
release_connection p (some c) address closed =
    release_to p c address closed (lookup address p.pools)

-- `Close`, which also closes the idle connections of every pool and ignores what that returns.
unfoldable pub close : TcpPool → TcpPool
close p = record p { pools = [] }

-- The two sums of the loop of `GetStats`, which no order of the loop changes.
idle_sum : List (String × HostPool) → ℤ
idle_sum [] = pos 0
idle_sum ((a, h) ∷ m) = int64 (pos (length h.connections) +ℤ idle_sum m)

active_sum : List (String × HostPool) → ℤ
active_sum [] = pos 0
active_sum ((a, h) ∷ m) = int64 (h.active_conns +ℤ active_sum m)

unfoldable pub get_stats : TcpPool → PoolStats
unfolding idle_sum active_sum
get_stats p = record {
  max_idle_conns = p.config.max_idle_conns;
  max_conns_per_host = p.config.max_conns_per_host;
  current_idle_conns = idle_sum p.pools;
  active_conns = active_sum p.pools;
  total_conns = int64 (idle_sum p.pools +ℤ active_sum p.pools);
}
