-- ===== src/LoadBalancing/LeastConnection.antt =====
-- pkg/loadbalancing/balancer.go, type LeastConnectionBalancer.
mod Least
pub mod Answering
mod Tests
use pin_go.Base.{
  ℕ, zero, suc, ◌+◌, String, Bool, true, false, ◌||◌, List, [], ◌∷◌, Option, none, some, ℤ, pos,
  negsuc, ltb_ℤ, eqb_ℤ, get_elem?, if◌then◌else◌,
}
use pin_go.Errors.{Error, load_balancing_error, new}
use pin_go.LoadBalancing.Backends.{
  Backend, make_backends, get_healthy_backends, healthy_addresses, increment_connections, mark,
  no_healthy,
}
use pin_go.LoadBalancing.Contract.{Selection, selected, failed, crashed}

pub record LeastConnection : Type 0 where
  pub backends : List Backend

unfoldable pub new_least_connection : List String → LeastConnection
new_least_connection addresses = record { backends = make_backends addresses }

-- The test of the loop: -1 stands for no minimum yet.
is_better : Backend → ℤ → Bool
is_better b min_connections =
    eqb_ℤ min_connections (negsuc 0) || ltb_ℤ b.connections min_connections

-- The loop of `SelectBackend` from the index `i` on, with `minConnections`, which is -1 at the
-- start, and the index of `selected`.
scan : List Backend → ℕ → ℤ → Option ℕ → Option ℕ
scan [] i min_connections chosen = chosen
scan (b ∷ bs) i min_connections chosen =
    scan bs (suc i) (if is_better b min_connections then b.connections else min_connections)
      (if is_better b min_connections then some i else chosen)

-- `selected.IncrementConnections()`, where `selected` points to the `k`-th healthy backend.
increment_healthy : ℕ → List Backend → List Backend
increment_healthy k [] = []
increment_healthy zero (b ∷ bs) = elim b.healthy [
  | true ↦ increment_connections b ∷ bs
  | false ↦ b ∷ increment_healthy zero bs
]
increment_healthy (suc k) (b ∷ bs) = elim b.healthy [
  | true ↦ b ∷ increment_healthy k bs
  | false ↦ b ∷ increment_healthy (suc k) bs
]

abbrev pub none_selected : Error
none_selected = new load_balancing_error "failed to select backend"

-- The rest of `SelectBackend` after the loop.
finish : LeastConnection → List Backend → Option ℕ → LeastConnection × Selection
unfolding increment_healthy
finish l bs none = (l, failed none_selected)
finish l bs (some k) = (
  record l { backends = increment_healthy k l.backends },
  elim (get_elem? bs k) [ none ↦ crashed | some b ↦ selected b.address ],
)

choose : LeastConnection → List Backend → LeastConnection × Selection
unfolding is_better scan finish
choose l [] = (l, failed no_healthy)
choose l (b ∷ bs) = finish l (b ∷ bs) (scan (b ∷ bs) 0 (negsuc 0) none)

unfoldable pub select_backend : LeastConnection → LeastConnection × Selection
unfolding choose
select_backend l = choose l (get_healthy_backends l.backends)

unfoldable pub update_backends : LeastConnection → List String → LeastConnection
update_backends l addresses = record l { backends = make_backends addresses }

unfoldable pub mark_healthy : LeastConnection → String → LeastConnection
unfolding mark
mark_healthy l backend = record l { backends = mark true backend l.backends }

unfoldable pub mark_unhealthy : LeastConnection → String → LeastConnection
unfolding mark
mark_unhealthy l backend = record l { backends = mark false backend l.backends }

unfoldable pub get_healthy_addresses : LeastConnection → List String
get_healthy_addresses l = healthy_addresses l.backends
