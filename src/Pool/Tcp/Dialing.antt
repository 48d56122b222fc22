-- ===== src/Pool/Tcp/Dialing.antt =====
-- pkg/pool/pool.go, GetClient of TCPConnectionPool: what the http.Client gets that dials through the
-- pool. It closes its connections itself, and none comes back by ReleaseConnection.
use mathlib.Core.Path.{subst}
use mathlib.Core.Option.{some-injective}
use pin_go.Base.{
  ℕ, String, str_eq, eq_iff, ◌+◌, ◌^◌, ◌<◌, ◌≤◌, ◌≡◌, refl, sym, ap, ◌∙◌, leb_ℤ, List, [], ◌∷◌,
  some, pos, ◌+ℤ◌, ◌*ℤ◌, int64_id, +ℤ_parts, arith, if◌then◌else◌, Bool-cases, Option-cases, inl,
  inr, Duration, second, true,
}
use pin_go.Base.Dict.{lookup, insert, lookup-insert}
use pin_go.Pool.{Dialed, dialed, refused, Connected, connection, failed, crashed, PoolConfig}
use pin_go.Pool.Tcp.{
  HostPool, TcpPool, new_tcp_pool, make_host_pool, take_idle, dial, get_from, exhausted, host_of,
  find_or_make, get_connection,
}

-- The client of GetClient: its timeout, and its DialContext, which asks the pool.
abbrev pub client_timeout : Duration
client_timeout = pos 30 *ℤ second

abbrev pub dial_context : TcpPool → String → Dialed → TcpPool × Connected
dial_context = get_connection

-- The dials of a client in their order, each with its address and what the network brings.
unfoldable pub dial_all : TcpPool → List (String × Dialed) → TcpPool × List (String × Connected)
dial_all p [] = (p, [])
dial_all p ((address, d) ∷ ds) =
    let (p1, r) = dial_context p address d in
    let (p2, rs) = dial_all p1 ds in (p2, (address, r) ∷ rs)

abbrev one : Connected → ℕ
one (connection c) = 1
one (failed e) = 0
one crashed = 0

-- How many connections a client has been given for an address.
abbrev pub given : String → List (String × Connected) → ℕ
given a [] = 0
given a ((b, r) ∷ rs) = (if str_eq b a then one r else 0) + given a rs

-- The pool of one address has no idle connection and counts those that were handed out.
record Handed (n k : ℕ) (h : HostPool) : Type 0 where
  none_idle : h.connections ≡ []
  limit : h.max_conns ≡ pos n
  counted : h.active_conns ≡ pos k
  bounded : k ≤ n

record Counts (n k : ℕ) (a : String) (p : TcpPool) : Type 0 where
  host : HostPool
  there : host_of p a ≡ some host
  handed : Handed n k host

dial-Handed :
    (n k : ℕ) (h : HostPool) (d : Dialed)
    → n < 2 ^ 63
    → k < n
    → Handed n k h
    → Handed n (k + one (dial h d).1) (dial h d).0
unfolding dial
dial-Handed n k h (refused text) b l v = record {
  none_idle = v.none_idle;
  limit = v.limit;
  counted = ground (arith, v.counted);
  bounded = omega arith;
}
dial-Handed n k h (dialed c) b l v = record {
  none_idle = v.none_idle;
  limit = v.limit;
  counted =
      ground
        (arith, v.counted, +ℤ_parts h.active_conns (pos 1), int64_id (h.active_conns +ℤ pos 1));
  bounded = omega arith;
}

get_from-Handed :
    (n k : ℕ) (h : HostPool) (d : Dialed)
    → n < 2 ^ 63
    → Handed n k h
    → Handed n (k + one (get_from h d).1) (get_from h d).0
unfolding get_from take_idle
get_from-Handed n k h d b v =
    rw (v.none_idle, take_idle)
      (elim (Bool-cases (leb_ℤ h.max_conns h.active_conns)) [
        | inl t ↦ rw t (record {
          none_idle = v.none_idle;
          limit = v.limit;
          counted = ground (arith, v.counted);
          bounded = omega (arith, v.bounded);
        })
        | inr t ↦ rw t (dial-Handed n k h d b (ground (arith, v.counted, v.limit)) v)
      ])

-- The pool of every address is there or can be made.
get_connection-at :
    (p : TcpPool) (a : String) (d : Dialed) (h : HostPool)
    → host_of p a ≡ some h
    → get_connection p a d
      ≡ (record p { pools = insert a (get_from h d).0 p.pools }, (get_from h d).1)
unfolding get_connection
get_connection-at p a d h e = rw (e, get_connection) refl

host_of-some :
    (n : ℕ) (p : TcpPool) (a : String)
    → p.config.max_conns_per_host ≡ pos n
    → (h : HostPool) × (host_of p a ≡ some h)
unfolding host_of find_or_make make_host_pool
host_of-some n p a e = elim (Option-cases (lookup a p.pools)) [
  | inl f ↦ rw (f, find_or_make) (rw (e, make_host_pool) (_, refl))
  | inr (h, f) ↦ (h, rw (f, find_or_make) refl)
]

host_of-insert :
    (p : TcpPool) (a b : String) (h : HostPool)
    → host_of (record p { pools = insert b h p.pools }) a
      ≡ (if str_eq b a then some h else host_of p a)
unfolding host_of find_or_make
host_of-insert p a b h = rw (lookup-insert b a h p.pools, find_or_make) (ground arith)

dial_context-Counts :
    (n k : ℕ) (p : TcpPool) (a b : String) (d : Dialed)
    → n < 2 ^ 63
    → p.config.max_conns_per_host ≡ pos n
    → Counts n k a p
    → ((dial_context p b d).0.config.max_conns_per_host ≡ pos n)
      × Counts n (k + given a ((b, (dial_context p b d).1) ∷ [])) a (dial_context p b d).0
dial_context-Counts n k p a b d l e v =
    let (h, f) = host_of-some n p b e in
    rw (get_connection-at p b d h f) (
      e,
      elim (Bool-cases (str_eq b a)) [
        | inl t ↦
            let same : h ≡ v.host =
              some-injective _ _ (sym f ∙ ap (host_of p) ((eq_iff b a).0 t) ∙ v.there) in
            let handed : Handed n k h = subst (Handed n k) (sym same) v.handed in
            record {
              host = (get_from h d).0;
              there = host_of-insert p a b (get_from h d).0 ∙ rw t refl;
              handed =
                  subst (λ m. Handed n m (get_from h d).0) (rw t (omega arith))
                    (get_from-Handed n k h d l handed);
            }
        | inr t ↦ record {
          host = v.host;
          there = host_of-insert p a b (get_from h d).0 ∙ rw t v.there;
          handed = subst (λ m. Handed n m v.host) (rw t (omega arith)) v.handed;
        }
      ],
    )

dial_all-Counts :
    (n k : ℕ) (p : TcpPool) (a : String) (ds : List (String × Dialed))
    → n < 2 ^ 63
    → p.config.max_conns_per_host ≡ pos n
    → Counts n k a p
    → Counts n (k + given a (dial_all p ds).1) a (dial_all p ds).0
unfolding dial_all
dial_all-Counts n k p a [] l e v = subst (λ m. Counts n m a p) (omega arith) v
dial_all-Counts n k p a ((b, d) ∷ ds) l e v =
    let (p1, r) = dial_context p b d in
    let (kept, v1) = dial_context-Counts n k p a b d l e v in
    let x = (if str_eq b a then one r else 0) in
    subst (λ m. Counts n m a (dial_all p1 ds).0) (omega arith)
      (dial_all-Counts n (k + (x + 0)) p1 a ds l kept v1)

full_host : (n : ℕ) (h : HostPool) (d : Dialed) → Handed n n h → (get_from h d).1 ≡ failed exhausted
unfolding get_from take_idle
full_host n h d v =
    let full : leb_ℤ h.max_conns h.active_conns ≡ true = ground (arith, v.limit, v.counted) in
    rw (v.none_idle, take_idle) (rw full refl)

full_pool :
    (n : ℕ) (p : TcpPool) (a : String) (d : Dialed)
    → Counts n n a p
    → (dial_context p a d).1 ≡ failed exhausted
full_pool n p a d v =
    ap (λ r. r.1) (get_connection-at p a d v.host v.there) ∙ full_host n v.host d v.handed

limit_of :
    (c : PoolConfig) (n : ℕ)
    → c.max_conns_per_host ≡ pos n
    → (new_tcp_pool (some c)).config.max_conns_per_host ≡ pos n
unfolding new_tcp_pool
limit_of c n e = e

new_tcp_pool-Counts :
    (c : PoolConfig) (n : ℕ) (a : String)
    → c.max_conns_per_host ≡ pos n
    → Counts n 0 a (new_tcp_pool (some c))
unfolding new_tcp_pool host_of find_or_make make_host_pool lookup
new_tcp_pool-Counts c n a e = record {
  host = record {
    address = a;
    connections = [];
    capacity = n;
    max_conns = pos n;
    active_conns = pos 0;
  };
  there = rw (e, make_host_pool) refl;
  handed = record { none_idle = refl; limit = refl; counted = refl; bounded = omega arith };
}

-- Over the whole life of the client of GetClient on a new pool, whatever it dials, and whatever it
-- closes in between, it is given at most MaxConnsPerHost connections for an address; once it has been
-- given as many, every dial to the address fails with the error of an exhausted pool.
pub dial_all-exhausted :
    (c : PoolConfig) (n : ℕ) (a : String) (ds : List (String × Dialed))
    → n < 2 ^ 63
    → c.max_conns_per_host ≡ pos n
    → let (p, rs) = dial_all (new_tcp_pool (some c)) ds in
      (given a rs ≤ n) × (given a rs ≡ n → (d : Dialed) → (dial_context p a d).1 ≡ failed exhausted)
dial_all-exhausted c n a ds l e =
    let p = new_tcp_pool (some c) in
    let all = dial_all p ds in
    let v =
      subst (λ m. Counts n m a all.0) (omega arith)
        (dial_all-Counts n 0 p a ds l (limit_of c n e) (new_tcp_pool-Counts c n a e)) in
    (v.handed.bounded, λ g d. full_pool n all.0 a d (subst (λ m. Counts n m a all.0) g v))
