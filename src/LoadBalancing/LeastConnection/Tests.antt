-- ===== src/LoadBalancing/LeastConnection/Tests.antt =====
-- pkg/loadbalancing/balancer.go, type LeastConnectionBalancer, at concrete inputs.
use pin_go.Base.{ℕ, String, ◌≡◌, ◌⊎◌, refl, Bool, true, false, [], ◌∷◌, pos, int64, ◌+ℤ◌, arith}
use pin_go.LoadBalancing.Backends.{Backend, get_healthy_backends, no_healthy}
use pin_go.LoadBalancing.Contract.{selected, failed}
use pin_go.LoadBalancing.LeastConnection.{LeastConnection, select_backend}
use pin_go.LoadBalancing.LeastConnection.Least.{Takes, select_backend-Takes}

abbrev backend : String → Bool → ℕ → Backend
backend address healthy connections = record {
  address = address;
  healthy = healthy;
  weight = pos 1;
  connections = pos connections;
}

abbrev busy : LeastConnection
busy = record {
  backends =
      backend "a:80" true 3
      ∷ backend "b:80" false 0
      ∷ backend "c:80" true 1
      ∷ backend "d:80" true 1
      ∷ [];
}

takes_first_least : select_backend busy ≡ (
  record {
    backends =
        backend "a:80" true 3
        ∷ backend "b:80" false 0
        ∷ backend "c:80" true 2
        ∷ backend "d:80" true 1
        ∷ [];
  },
  selected "c:80",
)
unfolding select_backend int64 ◌+ℤ◌
takes_first_least = refl

select_backend-Takes_example :
    ((get_healthy_backends busy.backends ≡ []) × (select_backend busy ≡ (busy, failed no_healthy)))
    ⊎ Takes busy
select_backend-Takes_example = select_backend-Takes busy (omega arith)
