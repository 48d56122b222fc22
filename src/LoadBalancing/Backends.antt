-- ===== src/LoadBalancing/Backends.antt =====
-- pkg/loadbalancing/balancer.go, type Backend, and the loops over backends that each balancer has
-- a copy of.
pub mod Health
use pin_go.Base.{
  String, str_eq, Bool, true, false, List, [], ◌∷◌, ℤ, pos, ◌+ℤ◌, ◌-ℤ◌, int64, filter, map,
  if◌then◌else◌,
}
use pin_go.Errors.{Error, load_balancing_error, new}

pub record Backend : Type 0 where
  pub address : String
  pub healthy : Bool
  pub weight : ℤ
  pub connections : ℤ

abbrev pub is_healthy : Backend → Bool
is_healthy b = b.healthy

abbrev pub set_healthy : Bool → Backend → Backend
set_healthy healthy b = record b { healthy = healthy }

abbrev pub increment_connections : Backend → Backend
increment_connections b = record b { connections = int64 (b.connections +ℤ pos 1) }

abbrev pub decrement_connections : Backend → Backend
decrement_connections b = record b { connections = int64 (b.connections -ℤ pos 1) }

-- The loop of the constructors and of `UpdateBackends`.
abbrev pub make_backends : List String → List Backend
make_backends =
    map λ address. record { address = address; healthy = true; weight = pos 1; connections = pos 0 }

-- `getHealthyBackends`.
abbrev pub get_healthy_backends : List Backend → List Backend
get_healthy_backends = filter is_healthy

-- `GetHealthyBackends`.
abbrev pub healthy_addresses : List Backend → List String
healthy_addresses bs = map (λ b. b.address) (get_healthy_backends bs)

-- The loop of `MarkHealthy` and `MarkUnhealthy`: the first backend of the address, and no other.
unfoldable pub mark : Bool → String → List Backend → List Backend
mark healthy address [] = []
mark healthy address (b ∷ bs) =
    let rest = mark healthy address bs in
    if str_eq b.address address then set_healthy healthy b ∷ bs else b ∷ rest

abbrev pub no_healthy : Error
no_healthy = new load_balancing_error "no healthy backends available"
