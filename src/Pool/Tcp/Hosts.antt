-- ===== src/Pool/Tcp/Hosts.antt =====
-- pkg/pool/pool.go, type TCPConnectionPool: the pool of one address among those of the others.
use pin_go.Base.{
  ℕ, ◌<◌, String, str_eq, eq_iff, ltb, ◌≡◌, refl, sym, ap, ◌∙◌, true, none, some, ℤ, pos, ◌+ℤ◌,
  ◌-ℤ◌, int64, int64_id, IsInt64, +ℤ_parts, -ℤ_parts, eq_of_parts, length, arith, if◌then◌else◌,
  Bool-cases, inl, inr,
}
use pin_go.Base.Dict.{lookup, insert, lookup-insert}
use pin_go.Errors.{Cause}
use pin_go.Pool.{Dialed, connection}
use pin_go.Pool.Tcp.{
  HostPool, TcpPool, get_from, take_idle, put_back, host_of, find_or_make, get_connection,
  release_to, release_connection,
}

-- GetConnection answers as the pool of its address does, made where there is none, stores what that
-- has become and leaves the pools of all other addresses.
pub get_connection-get_from :
    (p : TcpPool) (address : String) (d : Dialed) (h : HostPool)
    → host_of p address ≡ some h
    → ((get_connection p address d).1 ≡ (get_from h d).1)
      × ((j : String)
          → lookup j (get_connection p address d).0.pools
            ≡ (if str_eq address j then some (get_from h d).0 else lookup j p.pools))
unfolding get_connection
get_connection-get_from p address d h e =
    rw (e, get_connection) (refl, λ j. lookup-insert address j (get_from h d).0 p.pools)

there :
    (p : TcpPool) (address : String) (h : HostPool)
    → lookup address p.pools ≡ some h
    → host_of p address ≡ some h
unfolding host_of find_or_make
there p address h e = rw (e, find_or_make) refl

put_back-get_from :
    (h : HostPool) (c : ℕ) (closed : Cause) (d : Dialed)
    → length h.connections < h.capacity
    → IsInt64 h.active_conns
    → IsInt64 (h.active_conns -ℤ pos 1)
    → ((put_back h c closed).1 ≡ none) × (get_from (put_back h c closed).0 d ≡ (h, connection c))
unfolding put_back get_from take_idle
put_back-get_from h c closed d room i i' =
    let full : ltb (length h.connections) h.capacity ≡ true = ground arith in
    let back : int64 (int64 (h.active_conns -ℤ pos 1) +ℤ pos 1) ≡ h.active_conns =
      rw (int64_id (h.active_conns -ℤ pos 1) i')
        (rw (restored h.active_conns) (int64_id h.active_conns i)) in
    rw (full, put_back) (refl, rw back refl)
  where
    restored : (n : ℤ) → n -ℤ pos 1 +ℤ pos 1 ≡ n
    restored n = eq_of_parts _ _ (omega (arith, -ℤ_parts n (pos 1), +ℤ_parts (n -ℤ pos 1) (pos 1)))

-- Given back to a pool with room, a connection is what the next GetConnection for the address hands
-- out, without a dial, and every pool is then as it was before.
pub get_connection-release_connection :
    (p : TcpPool) (address : String) (c : ℕ) (closed : Cause) (d : Dialed) (h : HostPool)
    → lookup address p.pools ≡ some h
    → length h.connections < h.capacity
    → IsInt64 h.active_conns
    → IsInt64 (h.active_conns -ℤ pos 1)
    → let (p', error) = release_connection p (some c) address closed in
      let (p'', got) = get_connection p' address d in
      (error ≡ none) × (got ≡ connection c) × ((j : String) → lookup j p''.pools ≡ lookup j p.pools)
unfolding release_connection release_to put_back
get_connection-release_connection p address c closed d h e room i i' =
    let h' = (put_back h c closed).0 in
    let p' = record p { pools = insert address h' p.pools } in
    let (kept, back) = put_back-get_from h c closed d room i i' in
    let stored = λ (j : String). lookup-insert address j h' p.pools in
    let found : lookup address p'.pools ≡ some h' =
      stored address ∙ rw ((eq_iff address address).1 refl) in
    let (answer, pools) = get_connection-get_from p' address d h' (there p' address h' found) in
    rw (e, release_to)
      (
        kept,
        answer ∙ ap (λ r. r.1) back,
        λ j. pools j ∙ elim (Bool-cases (str_eq address j)) [
          | inl t ↦
              let same : address ≡ j = (eq_iff address j).0 t in
              rw t (ap (λ r. some r.0) back ∙ sym e ∙ ap (λ k. lookup k p.pools) same)
          | inr t ↦ rw t (stored j ∙ rw t refl)
        ],
      )
