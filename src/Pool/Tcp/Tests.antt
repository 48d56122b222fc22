-- ===== src/Pool/Tcp/Tests.antt =====
-- pkg/pool/pool.go, type TCPConnectionPool, at concrete inputs.
use pin_go.Base.{
  ℕ, ◌+◌, ◌≤◌, String, ◌≡◌, refl, List, [], ◌∷◌, none, some, pos, ◌+ℤ◌, ◌-ℤ◌, ◌*ℤ◌, int64, length,
  arith,
}
use pin_go.Base.Dict.{lookup, insert}
use pin_go.Errors.{no_cause, new}
use pin_go.Pool.{PoolConfig, Dialed, default_pool_config, dialed, refused, connection, failed}
use pin_go.Pool.Tcp.{
  HostPool, TcpPool, new_tcp_pool, make_host_pool, get_from, put_back, host_of, get_connection,
  release_connection, get_stats, exhausted,
}
use pin_go.Pool.Tcp.Clients.{Act, gets, gives, run, count, remove_at, act}
use pin_go.Pool.Tcp.Sharing.{run-shared}
use pin_go.Pool.Tcp.Hosts.{get_connection-release_connection}
use pin_go.Pool.Tcp.Dialing.{dial_context, dial_all, given, dial_all-exhausted}

program : Unit {0}
unfolding default_pool_config new_tcp_pool make_host_pool get_from put_back host_of get_connection
    release_connection get_stats lookup insert new ◌+ℤ◌ ◌-ℤ◌ ◌*ℤ◌ int64 run act remove_at
program = tt

abbrev empty_host : HostPool
empty_host = record {
  address = "a:80";
  connections = [];
  capacity = 2;
  max_conns = pos 2;
  active_conns = pos 0;
}

-- Two connections are taken, a third is refused, the first is given back and taken again.
abbrev acts : List Act
acts =
    gets (dialed 7)
    ∷ gets (dialed 8)
    ∷ gets (refused "no route")
    ∷ gives 1 no_cause
    ∷ gets (dialed 9)
    ∷ []

reuses : (run (record { host = empty_host; held = [] }) acts).held ≡ 7 ∷ 8 ∷ []
unfolding program
reuses = refl

refuses_at_the_limit :
    (get_from (record empty_host { active_conns = pos 2 }) (dialed 7)).1 ≡ failed exhausted
unfolding program
refuses_at_the_limit = refl

run-shared_example :
    let s = run (record { host = empty_host; held = [] }) acts in
    ((c : ℕ) → count c s.host.connections + count c s.held ≤ 1)
    × (length s.host.connections + length s.held ≤ 2)
    × (s.host.active_conns ≡ pos (length s.held))
unfolding program
run-shared_example =
    run-shared 2 "a:80" empty_host acts (omega arith) refl (refl, (refl, (tt, (tt, (refl, tt)))))

abbrev pool : TcpPool
pool = record {
  config = default_pool_config;
  pools = ("a:80", record empty_host { active_conns = pos 1 }) ∷ [];
}

get_connection-release_connection_example :
    let (p', error) = release_connection pool (some 7) "a:80" no_cause in
    let (p'', got) = get_connection p' "a:80" (dialed 8) in
    (error ≡ none)
    × (got ≡ connection 7)
    × ((j : String) → lookup j p''.pools ≡ lookup j pool.pools)
unfolding lookup ◌-ℤ◌
get_connection-release_connection_example =
    get_connection-release_connection pool "a:80" 7 no_cause (dialed 8)
      (record empty_host { active_conns = pos 1 }) refl (omega arith) (omega arith) (omega arith)

abbrev small : PoolConfig
small = record {
  max_idle_conns = pos 5;
  max_conns_per_host = pos 1;
  keep_alive = pos 1;
  connect_timeout = pos 1;
  idle_timeout = pos 1;
}

-- One connection is given, and no second one ever.
abbrev dials : List (String × Dialed)
dials = ("a:80", dialed 7) ∷ ("b:80", refused "no route") ∷ ("a:80", dialed 8) ∷ []

dial_all-exhausted_example :
    let (p, rs) = dial_all (new_tcp_pool (some small)) dials in
    (given "a:80" rs ≤ 1)
    × (given "a:80" rs ≡ 1 → (d : Dialed) → (dial_context p "a:80" d).1 ≡ failed exhausted)
dial_all-exhausted_example = dial_all-exhausted small 1 "a:80" dials (omega arith) refl

one_given : given "a:80" (dial_all (new_tcp_pool (some small)) dials).1 ≡ 1
unfolding program dial_all
one_given = refl
