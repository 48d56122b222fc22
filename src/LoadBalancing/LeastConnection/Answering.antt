-- ===== src/LoadBalancing/LeastConnection/Answering.antt =====
-- pkg/loadbalancing/balancer.go, type LeastConnectionBalancer, as an implementation of the interface
-- LoadBalancer, whatever the counts of connections are.
use pin_go.Base.{
  ℕ, zero, suc, ◌+◌, ◌<◌, ◌≡◌, refl, inl, inr, List, [], ◌∷◌, map, Option, none, some, length,
  get_elem?-some, Bool-cases, ℤ, negsuc, arith,
}
use pin_go.Errors.{new}
use pin_go.LoadBalancing.Backends.{Backend, get_healthy_backends, healthy_addresses}
use pin_go.LoadBalancing.Contract.{Among-get_elem?, Answers, LoadBalancer}
use pin_go.LoadBalancing.LeastConnection.{
  LeastConnection, is_better, scan, increment_healthy, finish, choose, select_backend,
  update_backends, mark_healthy, mark_unhealthy, get_healthy_addresses,
}

-- The loop keeps or replaces an index that it has.
scan-some :
    (bs : List Backend) (i : ℕ) (m : ℤ) (k n : ℕ)
    → k < n
    → i + length bs ≡ n
    → (j : ℕ) × (scan bs i m (some k) ≡ some j) × (j < n)
unfolding scan
scan-some [] i m k n h e = (k, refl, h)
scan-some (b ∷ bs) i m k n h e = elim (Bool-cases (is_better b m)) [
  | inl t ↦ rw t (scan-some bs (suc i) b.connections i n (omega (arith, e)) (omega (arith, e)))
  | inr t ↦ rw t (scan-some bs (suc i) m k n h (omega (arith, e)))
]

finish-Answers :
    (l : LeastConnection) (bs : List Backend) (k : ℕ)
    → k < length bs
    → Answers (map (λ c. c.address) bs) (finish l bs (some k)).1
unfolding finish
finish-Answers l bs k h =
    let (b, e) = get_elem?-some bs k h in rw (e, finish) (Among-get_elem? bs k b e)

choose-Answers :
    (l : LeastConnection) (bs : List Backend) → Answers (map (λ c. c.address) bs) (choose l bs).1
unfolding choose new scan is_better
choose-Answers l [] = (refl, refl)
choose-Answers l (b ∷ bs) =
    let (k, e, h) = scan-some bs 1 b.connections 0 (suc (length bs)) (omega arith) (omega arith) in
    rw e (finish-Answers l (b ∷ bs) k h)

increment-addresses :
    (k : ℕ) (bs : List Backend) → healthy_addresses (increment_healthy k bs) ≡ healthy_addresses bs
unfolding increment_healthy
increment-addresses k [] = refl
increment-addresses zero (b ∷ bs) = ground (arith, increment-addresses zero bs)
increment-addresses (suc k) (b ∷ bs) =
    ground (arith, increment-addresses k bs, increment-addresses (suc k) bs)

finish-addresses :
    (l : LeastConnection) (bs : List Backend) (chosen : Option ℕ)
    → healthy_addresses (finish l bs chosen).0.backends ≡ healthy_addresses l.backends
unfolding finish
finish-addresses l bs none = refl
finish-addresses l bs (some k) = increment-addresses k l.backends

choose-addresses :
    (l : LeastConnection) (bs : List Backend)
    → healthy_addresses (choose l bs).0.backends ≡ healthy_addresses l.backends
unfolding choose
choose-addresses l [] = refl
choose-addresses l (b ∷ bs) = finish-addresses l (b ∷ bs) (scan (b ∷ bs) 0 (negsuc 0) none)

pub select-Answers : (l : LeastConnection) → Answers (get_healthy_addresses l) (select_backend l).1
unfolding select_backend get_healthy_addresses
select-Answers l = choose-Answers l (get_healthy_backends l.backends)

pub select_keeps_health :
    (l : LeastConnection) → get_healthy_addresses (select_backend l).0 ≡ get_healthy_addresses l
unfolding select_backend get_healthy_addresses
select_keeps_health l = choose-addresses l (get_healthy_backends l.backends)

-- The balancer as an implementation of the interface.
unfoldable pub least_connection : LoadBalancer
least_connection = record {
  Balancer = LeastConnection;
  select_backend = select_backend;
  update_backends = update_backends;
  mark_healthy = mark_healthy;
  mark_unhealthy = mark_unhealthy;
  get_healthy_backends = get_healthy_addresses;
  select_answers = select-Answers;
  select_keeps_health = select_keeps_health;
}
