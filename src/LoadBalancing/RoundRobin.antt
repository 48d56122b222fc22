-- ===== src/LoadBalancing/RoundRobin.antt =====
-- pkg/loadbalancing/balancer.go, type RoundRobinBalancer. The counter is a uint64.
pub mod Turns
mod Tests
use pin_go.Base.{
  ℕ, zero, suc, ◌+◌, ◌%◌, ◌^◌, String, Bool, true, false, List, [], ◌∷◌, Option, none, some, length,
  get_elem?,
}
use pin_go.Errors.{Error}
use pin_go.LoadBalancing.Backends.{
  Backend, make_backends, get_healthy_backends, healthy_addresses, mark, no_healthy,
}
use pin_go.LoadBalancing.Contract.{Selection, selected, failed, crashed}

pub record RoundRobin : Type 0 where
  pub backends : List Backend
  pub current : ℕ

unfoldable pub new_round_robin : List String → RoundRobin
new_round_robin addresses = record { backends = make_backends addresses; current = 0 }

-- `healthyBackends[index].Address`; an index out of range would panic.
pick : List Backend → ℕ → Selection
pick bs index = elim (get_elem? bs index) [ none ↦ crashed | some b ↦ selected b.address ]

-- The rest of `SelectBackend` on the list of healthy backends.
choose : RoundRobin → List Backend → RoundRobin × Selection
unfolding pick
choose r [] = (r, failed no_healthy)
choose r (b ∷ bs) =
    let current = (r.current + 1) % 2 ^ 64 in
    (record r { current = current }, pick (b ∷ bs) (current % length (b ∷ bs)))

unfoldable pub select_backend : RoundRobin → RoundRobin × Selection
unfolding choose
select_backend r = choose r (get_healthy_backends r.backends)

unfoldable pub update_backends : RoundRobin → List String → RoundRobin
update_backends r addresses = record { backends = make_backends addresses; current = 0 }

unfoldable pub mark_healthy : RoundRobin → String → RoundRobin
unfolding mark
mark_healthy r backend = record r { backends = mark true backend r.backends }

unfoldable pub mark_unhealthy : RoundRobin → String → RoundRobin
unfolding mark
mark_unhealthy r backend = record r { backends = mark false backend r.backends }

unfoldable pub get_healthy_addresses : RoundRobin → List String
get_healthy_addresses r = healthy_addresses r.backends
