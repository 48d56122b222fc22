-- ===== src/LoadBalancing/RoundRobin/Turns.antt =====
-- pkg/loadbalancing/balancer.go, type RoundRobinBalancer: its answers, and the turns of the backends.
use native.Mathlib.Nat.{mul-add-mod_self_right, mod-eq_of_lt, div-add-mod}
use pin_go.Base.{
  ℕ, zero, suc, ◌+◌, ◌-◌, ◌*◌, ◌/◌, ◌%◌, ◌^◌, ◌<◌, ◌≤◌, ◌≡◌, refl, ap, ◌∙◌, inl, inr, List, [], ◌∷◌,
  map, some, length, get_elem?, get_elem?-some, leb, leb→le, Bool-cases, arith,
}
use pin_go.Errors.{new}
use pin_go.LoadBalancing.Backends.{Backend, healthy_addresses, get_healthy_backends}
use pin_go.LoadBalancing.Contract.{selected, Among-get_elem?, Answers, LoadBalancer}
use pin_go.LoadBalancing.RoundRobin.{
  RoundRobin, pick, choose, select_backend, update_backends, mark_healthy, mark_unhealthy,
  get_healthy_addresses,
}

pick-Answers :
    (bs : List Backend) (i : ℕ) → i < length bs → Answers (map (λ c. c.address) bs) (pick bs i)
unfolding pick
pick-Answers bs i h = let (b, e) = get_elem?-some bs i h in rw (e, pick) (Among-get_elem? bs i b e)

choose-Answers :
    (r : RoundRobin) (bs : List Backend) → Answers (map (λ c. c.address) bs) (choose r bs).1
unfolding choose new
choose-Answers r [] = (refl, refl)
choose-Answers r (b ∷ bs) = pick-Answers (b ∷ bs) _ (omega arith)

choose-backends : (r : RoundRobin) (bs : List Backend) → (choose r bs).0.backends ≡ r.backends
unfolding choose
choose-backends r [] = refl
choose-backends r (b ∷ bs) = refl

-- SelectBackend answers with a healthy address if one is there, and with an error of the balancer
-- exactly when none is; its index is never out of range.
pub select_backend-Answers :
    (r : RoundRobin) → Answers (get_healthy_addresses r) (select_backend r).1
unfolding select_backend get_healthy_addresses
select_backend-Answers r = choose-Answers r (get_healthy_backends r.backends)

pub select_backend-backends : (r : RoundRobin) → (select_backend r).0.backends ≡ r.backends
unfolding select_backend
select_backend-backends r = choose-backends r (get_healthy_backends r.backends)

pub select_keeps_health :
    (r : RoundRobin) → get_healthy_addresses (select_backend r).0 ≡ get_healthy_addresses r
unfolding get_healthy_addresses
select_keeps_health r = ap healthy_addresses (select_backend-backends r)

-- The balancer as an implementation of the interface.
unfoldable pub round_robin : LoadBalancer
round_robin = record {
  Balancer = RoundRobin;
  select_backend = select_backend;
  update_backends = update_backends;
  mark_healthy = mark_healthy;
  mark_unhealthy = mark_unhealthy;
  get_healthy_backends = get_healthy_addresses;
  select_answers = select_backend-Answers;
  select_keeps_health = select_keeps_health;
}

-- The balancer after `k` requests.
unfoldable pub after_turns : ℕ → RoundRobin → RoundRobin
after_turns zero r = r
after_turns (suc k) r = after_turns k (select_backend r).0

turn :
    (r : RoundRobin) (n : ℕ)
    → r.current + 1 < 2 ^ 64
    → length (get_healthy_backends r.backends) ≡ suc n
    → select_backend r ≡ (
      record r { current = r.current + 1 },
      pick (get_healthy_backends r.backends) ((r.current + 1) % suc n),
    )
unfolding select_backend
turn r n h e = go (get_healthy_backends r.backends) e
  where
    go :
        (bs : List Backend)
        → length bs ≡ suc n
        → choose r bs ≡ (record r { current = r.current + 1 }, pick bs ((r.current + 1) % suc n))
    go [] e = absurd (omega arith)
    go (b ∷ bs) e = unfold choose in rw (mod-eq_of_lt h) (rw e refl)

after_turns_lem :
    (k n : ℕ) (r : RoundRobin)
    → r.current + k < 2 ^ 64
    → length (get_healthy_backends r.backends) ≡ suc n
    → after_turns k r ≡ record r { current = r.current + k }
unfolding after_turns
after_turns_lem zero n r h e = ground arith
after_turns_lem (suc k) n r h e =
    rw (turn r n (omega arith) e)
      (after_turns_lem k n (record r { current = r.current + 1 }) (omega arith) e ∙ ground arith)

mod_lands : (q n i : ℕ) → i < n → (q * n + i) % n ≡ i
mod_lands q n i h = mul-add-mod_self_right q n i ∙ mod-eq_of_lt h

-- The number of turns until the counter `c` meets the index `i` of `n`.
turns_until : (c n i : ℕ) → i < n → (k : ℕ) × (k < n) × ((c + k) % n ≡ i)
turns_until c n i h =
    let q = c % n in
    elim (Bool-cases (leb q i)) [
      | inl t ↦
          let small : q ≤ i = leb→le q i t in
          let sum : c + (i - q) ≡ c / n * n + i = omega (arith, div-add-mod c n) in
          (i - q, omega arith, ap (λ (t : ℕ). t % n) sum ∙ mod_lands (c / n) n i h)
      | inr t ↦
          let big : i < q = ground arith in
          let sum : c + (i + n - q) ≡ (c / n + 1) * n + i = omega (arith, div-add-mod c n) in
          (i + n - q, omega arith, ap (λ (t : ℕ). t % n) sum ∙ mod_lands (c / n + 1) n i h)
    ]

get_elem?-lt : (bs : List Backend) (i : ℕ) {b : Backend} → get_elem? bs i ≡ some b → i < length bs
get_elem?-lt [] i e = cc
get_elem?-lt (b ∷ bs) zero e = omega arith
get_elem?-lt (b ∷ bs) (suc i) e = omega (arith, get_elem?-lt bs i e)

-- While the health of the backends stays as it is and the counter does not wrap, every healthy
-- backend is selected within as many requests as there are healthy backends.
pub select_backend_fair :
    (r : RoundRobin) (i : ℕ) (b : Backend)
    → get_elem? (get_healthy_backends r.backends) i ≡ some b
    → r.current + length (get_healthy_backends r.backends) < 2 ^ 64
    → (k : ℕ) × (k < length (get_healthy_backends r.backends))
      × ((select_backend (after_turns k r)).1 ≡ selected b.address)
select_backend_fair r i b e h =
    let bs = get_healthy_backends r.backends in
    let low = get_elem?-lt bs i e in
    let m = length bs - 1 in
    let size : length bs ≡ suc m = omega arith in
    let (k, less, lands) = turns_until (r.current + 1) (suc m) i (omega arith) in
    let there : (r.current + k + 1) % suc m ≡ i =
      ap (λ (t : ℕ). t % suc m) (let s : r.current + k + 1 ≡ r.current + 1 + k = omega arith in s)
      ∙ lands in
    (
      k,
      omega arith,
      rw (after_turns_lem k m r (omega arith) size) (
          rw (turn (record r { current = r.current + k }) m (omega arith) size)
            (rw there (unfold pick in rw (e, pick)))),
    )
