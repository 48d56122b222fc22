-- ===== src/LoadBalancing/Contract.antt =====
-- pkg/loadbalancing/balancer.go, interface LoadBalancer: its operations, with the law that a client
-- relies on when it asks for a backend.
use pin_go.LoadBalancing.Backends.{Backend}
use pin_go.Base.{
  ℕ, zero, suc, some, get_elem?, map, inl, inr, arith, String, ◌≡◌, ◌⊎◌, List, [], ◌∷◌,
}
use pin_go.Errors.{Error, error_type, load_balancing_error}

-- What `SelectBackend` returns: an address, an error, or a panic.
pub data Selection : Type 0 where
  selected : String → Selection
  failed : Error → Selection
  crashed : Selection

-- An address of the list.
abbrev pub Among : String → List String → Type 0
Among a [] = ⊥
Among a (x ∷ xs) = (a ≡ x) ⊎ Among a xs

pub Among-get_elem? :
    (bs : List Backend) (i : ℕ) (b : Backend)
    → get_elem? bs i ≡ some b
    → Among b.address (map (λ c. c.address) bs)
Among-get_elem? [] i b e = cc
Among-get_elem? (c ∷ bs) zero b e = inl (ground arith)
Among-get_elem? (c ∷ bs) (suc i) b e = inr (Among-get_elem? bs i b e)

-- An answer to a request: a healthy address if there is one, an error of the balancer if none is.
abbrev pub Answers : List String → Selection → Type 0
Answers healthy (selected a) = Among a healthy
Answers healthy (failed e) = (healthy ≡ []) × (error_type e ≡ load_balancing_error)
Answers healthy crashed = ⊥

pub record LoadBalancer : Type 1 where
  pub Balancer : Type 0
  pub select_backend : Balancer → Balancer × Selection
  pub update_backends : Balancer → List String → Balancer
  pub mark_healthy : Balancer → String → Balancer
  pub mark_unhealthy : Balancer → String → Balancer
  pub get_healthy_backends : Balancer → List String
  pub select_answers : (b : Balancer) → Answers (get_healthy_backends b) (select_backend b).1
  pub select_keeps_health :
      (b : Balancer) → get_healthy_backends (select_backend b).0 ≡ get_healthy_backends b
