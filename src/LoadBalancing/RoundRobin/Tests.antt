-- ===== src/LoadBalancing/RoundRobin/Tests.antt =====
-- pkg/loadbalancing/balancer.go, type RoundRobinBalancer, at concrete inputs.
use pin_go.Base.{String, ◌≡◌, refl, Bool, true, false, [], ◌∷◌, pos}
use pin_go.LoadBalancing.Backends.{Backend}
use pin_go.LoadBalancing.Contract.{selected}
use pin_go.LoadBalancing.RoundRobin.{RoundRobin, select_backend}

abbrev backend : String → Bool → Backend
backend address healthy = record {
  address = address;
  healthy = healthy;
  weight = pos 1;
  connections = pos 0;
}

abbrev three : RoundRobin
three = record {
  backends = backend "a:80" true ∷ backend "b:80" false ∷ backend "c:80" true ∷ [];
  current = 0;
}

-- The counter is raised before it is read, so the first answer is the second healthy backend.
first_answer : (select_backend three).1 ≡ selected "c:80"
unfolding select_backend
first_answer = refl
