-- ===== src/LoadBalancing/Random/Draws.antt =====
-- pkg/loadbalancing/balancer.go, type RandomBalancer: its answers.
use pin_go.Base.{ℕ, ◌<◌, ◌≡◌, refl, ap, List, [], ◌∷◌, map, length, get_elem?-some, arith}
use pin_go.Errors.{new}
use pin_go.LoadBalancing.Backends.{Backend, healthy_addresses, get_healthy_backends}
use pin_go.LoadBalancing.Contract.{Among-get_elem?, Answers, LoadBalancer}
use pin_go.LoadBalancing.Random.{
  Generator, Random, pick, choose, select_backend, update_backends, mark_healthy, mark_unhealthy,
  get_healthy_addresses,
}

module _ (gen : Generator) where
  pick-Answers :
      (bs : List Backend) (i : ℕ)
      → i < length bs
      → Answers (map (λ c. c.address) bs) (pick gen bs i)
  unfolding pick
  pick-Answers bs i h =
      let (b, e) = get_elem?-some bs i h in rw (e, pick) (Among-get_elem? bs i b e)

  choose-Answers :
      (r : Random gen) (bs : List Backend)
      → (Answers (map (λ c. c.address) bs) (choose gen r bs).1)
        × ((choose gen r bs).0.backends ≡ r.backends)
  unfolding choose new
  choose-Answers r [] = ((refl, refl), refl)
  choose-Answers r (b ∷ bs) =
      (pick-Answers (b ∷ bs) _ (gen.intn_lt (length (b ∷ bs)) r.rand (omega arith)), refl)

  -- Whatever the generator draws, SelectBackend answers with a healthy address if one is there, and
  -- with an error of the balancer exactly when none is; the backends stay as they are.
  pub select_backend-Answers_random :
      (r : Random gen)
      → (Answers (get_healthy_addresses gen r) (select_backend gen r).1)
        × ((select_backend gen r).0.backends ≡ r.backends)
  unfolding select_backend get_healthy_addresses
  select_backend-Answers_random r = choose-Answers r (get_healthy_backends r.backends)

  pub select_keeps_health :
      (r : Random gen)
      → get_healthy_addresses gen (select_backend gen r).0 ≡ get_healthy_addresses gen r
  unfolding get_healthy_addresses
  select_keeps_health r = ap healthy_addresses (select_backend-Answers_random r).1

  pub select-Answers :
      (r : Random gen) → Answers (get_healthy_addresses gen r) (select_backend gen r).1
  select-Answers r = (select_backend-Answers_random r).0

  -- The balancer as an implementation of the interface.
  unfoldable pub random : LoadBalancer
  random = record {
    Balancer = Random gen;
    select_backend = select_backend gen;
    update_backends = update_backends gen;
    mark_healthy = mark_healthy gen;
    mark_unhealthy = mark_unhealthy gen;
    get_healthy_backends = get_healthy_addresses gen;
    select_answers = select-Answers;
    select_keeps_health = select_keeps_health;
  }
