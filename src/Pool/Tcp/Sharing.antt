-- ===== src/Pool/Tcp/Sharing.antt =====
-- pkg/pool/pool.go, type hostPool: who has a connection, and how many there are.
use pin_go.Base.{
  ℕ, zero, suc, String, ltb, ◌+◌, ◌^◌, ◌<◌, ◌≤◌, ◌==◌, ◌≡◌, refl, ap, leb_ℤ, false, List, [], ◌∷◌,
  Option, none, some, pos, ◌+ℤ◌, ◌-ℤ◌, int64, int64_id, +ℤ_parts, -ℤ_parts, length, get_elem?,
  arith, if◌then◌else◌, Bool-cases, inl, inr,
}
use mathlib.Core.Path.{subst}
use mathlib.Core.Option.{some-injective}
use pin_go.Errors.{Cause}
use pin_go.Pool.{Dialed, dialed, refused}
use pin_go.Pool.Tcp.{HostPool, make_host_pool, take_idle, dial, get_from, put_back}
use pin_go.Pool.Tcp.Clients.{
  Shared, Act, gets, gives, remove_at, hand_out, hand_in, act, run, count, FreshDial, Fresh,
}

-- Every connection is in one hand, and the counts are right.
pub record Sound (max : ℕ) (s : Shared) : Type 0 where
  pub once : (c : ℕ) → count c s.host.connections + count c s.held ≤ 1
  pub bounded : length s.host.connections + length s.held ≤ max
  pub counted : s.host.active_conns ≡ pos (length s.held)
  pub limited : s.host.max_conns ≡ pos max
  pub room : s.host.capacity ≡ max

count-remove_at :
    (c i x : ℕ) (xs : List ℕ)
    → get_elem? xs i ≡ some x
    → count c (remove_at i xs) + (if x == c then 1 else 0) ≡ count c xs
unfolding remove_at
count-remove_at c i x [] h = cc
count-remove_at c zero x (y ∷ ys) h = ground arith
count-remove_at c (suc i) x (y ∷ ys) h = omega (arith, count-remove_at c i x ys h)

length-remove_at :
    (i x : ℕ) (xs : List ℕ) → get_elem? xs i ≡ some x → suc (length (remove_at i xs)) ≡ length xs
unfolding remove_at
length-remove_at i x [] h = cc
length-remove_at zero x (y ∷ ys) h = refl
length-remove_at (suc i) x (y ∷ ys) h = omega (arith, length-remove_at i x ys h)

-- A client that holds one connection more.
one_more-Sound :
    (max : ℕ) (s : Shared) (c : ℕ) (rest : List ℕ)
    → max < 2 ^ 63
    → Sound max s
    → ((x : ℕ) → count x rest + ((if c == x then 1 else 0) + count x s.held) ≤ 1)
    → length rest + suc (length s.held) ≤ max
    → Sound max (record {
      host = record (s.host) {
        connections = rest;
        active_conns = int64 (s.host.active_conns +ℤ pos 1);
      };
      held = c ∷ s.held;
    })
one_more-Sound max s c rest b v once bounded = record {
  once = once;
  bounded = bounded;
  counted = ground (
    arith,
    v.counted,
    +ℤ_parts s.host.active_conns (pos 1),
    int64_id (s.host.active_conns +ℤ pos 1),
  );
  limited = v.limited;
  room = v.room;
}

dial-Sound :
    (max : ℕ) (s : Shared) (d : Dialed)
    → max < 2 ^ 63
    → Sound max s
    → s.host.connections ≡ []
    → leb_ℤ s.host.max_conns s.host.active_conns ≡ false
    → FreshDial s (gets d)
    → Sound max (hand_out s.held (dial s.host d))
unfolding dial hand_out
dial-Sound max s (refused text) b v e room f = v
dial-Sound max s (dialed c) b v e room f =
    one_more-Sound max s c s.host.connections b v
      (λ x. elim (Bool-cases (c == x)) [
        | inl t ↦
            let same : c ≡ x = ground arith in
            ground (arith, ap (λ y. count y s.host.connections + count y s.held) same)
        | inr t ↦ rw t (omega (arith, v.once x))
      ])
      (ground (arith, ap length e, v.counted, v.limited))

take_idle-Sound :
    (max : ℕ) (s : Shared) (cs : List ℕ) (d : Dialed)
    → max < 2 ^ 63
    → Sound max s
    → s.host.connections ≡ cs
    → FreshDial s (gets d)
    → Sound max (hand_out s.held (take_idle s.host cs d))
unfolding take_idle
take_idle-Sound max s [] d b v e f =
    elim (Bool-cases (leb_ℤ s.host.max_conns s.host.active_conns)) [
      | inl full ↦ rw full (unfold hand_out in v)
      | inr room ↦ rw room (dial-Sound max s d b v e room f)
    ]
take_idle-Sound max s (c ∷ cs) d b v e f =
    unfold hand_out in
    one_more-Sound max s c cs b v (λ x. omega (arith, v.once x, ap (count x) e))
      (omega (arith, v.bounded, ap length e))

-- A client that gives back the connection `c`, which the pool keeps or closes.
one_less-Sound :
    (max : ℕ) (s : Shared) (i c : ℕ) (idle : List ℕ)
    → max < 2 ^ 63
    → Sound max s
    → get_elem? s.held i ≡ some c
    → ((x : ℕ) → count x idle ≤ count x s.host.connections + (if c == x then 1 else 0))
    → length idle ≤ suc (length s.host.connections)
    → Sound max (record {
      host = record (s.host) {
        connections = idle;
        active_conns = int64 (s.host.active_conns -ℤ pos 1);
      };
      held = remove_at i s.held;
    })
one_less-Sound max s i c idle b v e once few =
    let less = length-remove_at i c s.held e in
    record {
      once = λ x. omega (arith, v.once x, once x, count-remove_at x i c s.held e);
      bounded = omega (arith, less, v.bounded, few);
      counted = ground (
        arith,
        less,
        v.bounded,
        v.counted,
        -ℤ_parts s.host.active_conns (pos 1),
        int64_id (s.host.active_conns -ℤ pos 1),
      );
      limited = v.limited;
      room = v.room;
    }

hand_in-Sound :
    (max : ℕ) (s : Shared) (i : ℕ) (closed : Cause) (o : Option ℕ)
    → max < 2 ^ 63
    → Sound max s
    → get_elem? s.held i ≡ o
    → Sound max (hand_in s i closed o)
unfolding hand_in put_back
hand_in-Sound max s i closed none b v e = v
hand_in-Sound max s i closed (some c) b v e =
    elim (Bool-cases (ltb (length s.host.connections) s.host.capacity)) [
      | inl t ↦
          rw t (
            one_less-Sound max s i c (c ∷ s.host.connections) b v e (λ x. omega arith)
              (omega arith))
      | inr t ↦
          rw t (one_less-Sound max s i c s.host.connections b v e (λ x. omega arith) (omega arith))
    ]

act-Sound :
    (max : ℕ) (s : Shared) (a : Act)
    → max < 2 ^ 63
    → Sound max s
    → FreshDial s a
    → Sound max (act s a)
unfolding act get_from
act-Sound max s (gets d) b v f = take_idle-Sound max s s.host.connections d b v refl f
act-Sound max s (gives i closed) b v f = hand_in-Sound max s i closed (get_elem? s.held i) b v refl

run-Sound :
    (max : ℕ) (s : Shared) (acts : List Act)
    → max < 2 ^ 63
    → Sound max s
    → Fresh s acts
    → Sound max (run s acts)
unfolding run
run-Sound max s [] b v f = v
run-Sound max s (a ∷ rest) b v f = run-Sound max (act s a) rest b (act-Sound max s a b v f.0) f.1

new-Sound :
    (max : ℕ) (address : String) (h : HostPool)
    → make_host_pool address (pos max) ≡ some h
    → Sound max (record { host = h; held = [] })
unfolding make_host_pool
new-Sound max address h e =
    subst (λ x. Sound max (record { host = x; held = [] })) (some-injective _ _ e)
      (record {
        once = λ c. omega arith;
        bounded = omega arith;
        counted = refl;
        limited = refl;
        room = refl;
      })

-- In any history of a new pool for one address whose clients give back only what they hold, if each
-- dial makes a new connection: no connection is idle or held twice, the idle and the held ones
-- together are at most the maximum, and the count of active ones is the number of the held ones.
pub run-shared :
    (max : ℕ) (address : String) (h : HostPool) (acts : List Act)
    → max < 2 ^ 63
    → make_host_pool address (pos max) ≡ some h
    → Fresh (record { host = h; held = [] }) acts
    → let s = run (record { host = h; held = [] }) acts in
      ((c : ℕ) → count c s.host.connections + count c s.held ≤ 1)
      × (length s.host.connections + length s.held ≤ max)
      × (s.host.active_conns ≡ pos (length s.held))
run-shared max address h acts b e f =
    let v = run-Sound max (record { host = h; held = [] }) acts b (new-Sound max address h e) f in
    (v.once, v.bounded, v.counted)
