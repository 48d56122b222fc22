-- ===== src/Proxy/Service/Creation.antt =====
-- pkg/proxy/proxy.go, NewProxyService and SimpleProxyService.
use pin_go.Base.{
  String, str_eq, eq_iff, ◌≡◌, ◌≢◌, refl, ap, sym, ◌∙◌, ◌⊎◌, inl, inr, false, Bool-cases, List, [],
  ◌∷◌, Option, none, some,
}
use pin_go.LoadBalancing.Backends.{make_backends, healthy_addresses}
use mathlib.Core.List.{nil≢cons}
use mathlib.Core.Path.{subst}
use mathlib.Core.Bool.{true≢false}
use pin_go.LoadBalancing.RoundRobin.{new_round_robin}
use pin_go.LoadBalancing.RoundRobin
use pin_go.LoadBalancing.Random.{Generator, new_random}
use pin_go.LoadBalancing.Random
use pin_go.LoadBalancing.LeastConnection.{new_least_connection}
use pin_go.LoadBalancing.LeastConnection
use pin_go.LoadBalancing.RoundRobin.Turns.{round_robin}
use pin_go.LoadBalancing.Random.Draws.{random}
use pin_go.LoadBalancing.LeastConnection.Answering.{least_connection}
use pin_go.Proxy.Service.{
  Balancing, ProxyService, ProxyConfig, or_default_config, no_upstreams, unknown_method, Created,
  created, rejected, choose_balancer, with_balancer, with_upstreams, new_proxy_service, Listened,
}
use pin_go.Proxy.Simple.{fatal, simple_from, simple_proxy_service}
use pin_go.Proxy.Service.Handling.{healthy}

-- The methods that the `switch` knows.
abbrev pub Known : String → Type 0
Known m = (m ≡ "round_robin") ⊎ (m ≡ "random") ⊎ (m ≡ "least_conn")

-- What NewProxyService returns for a configuration.
pub data Makes (name : String) (c : ProxyConfig) : Created → Type 1 where
  bare : c.upstreams ≡ [] → Makes name c (rejected no_upstreams)
  strange :
      c.upstreams ≢ []
      → (Known c.load_balancing_method → ⊥)
      → Makes name c (rejected (unknown_method c.load_balancing_method))
  made :
      (p : ProxyService)
      → c.upstreams ≢ []
      → Known c.load_balancing_method
      → healthy p ≡ c.upstreams
      → p.name ≡ name
      → p.listeners ≡ []
      → Makes name c (created p)

all_healthy : (us : List String) → healthy_addresses (make_backends us) ≡ us
all_healthy [] = refl
all_healthy (u ∷ us) = ap (◌∷◌ u) (all_healthy us)

abbrev Chosen : String → List String → Option Balancing → Type 0
Chosen m us none = Known m → ⊥
Chosen m us (some b) = Known m × (b.interface.get_healthy_backends b.state ≡ us)

-- A text that is none of the three.
unknown :
    (m : String)
    → str_eq m "round_robin" ≡ false
    → str_eq m "random" ≡ false
    → str_eq m "least_conn" ≡ false
    → Known m
    → ⊥
unknown m a b c (inl e) = true≢false (sym ((eq_iff m "round_robin").1 e) ∙ a)
unknown m a b c (inr (inl e)) = true≢false (sym ((eq_iff m "random").1 e) ∙ b)
unknown m a b c (inr (inr e)) = true≢false (sym ((eq_iff m "least_conn").1 e) ∙ c)

module _ (gen : Generator) (rand : gen.Rand) where
  choose_balancer-Chosen :
      (m : String) (us : List String) → Chosen m us (choose_balancer gen rand m us)
  unfolding choose_balancer round_robin random least_connection new_round_robin new_random
      new_least_connection
  choose_balancer-Chosen m us = elim (Bool-cases (str_eq m "round_robin")) [
    | inl t ↦ rw t (
      inl ((eq_iff m "round_robin").0 t),
      unfold RoundRobin.get_healthy_addresses in all_healthy us,
    )
    | inr t ↦ elim (Bool-cases (str_eq m "random")) [
      | inl u ↦
          rw (t, u)
            (
              inr (inl ((eq_iff m "random").0 u)),
              unfold Random.get_healthy_addresses in all_healthy us,
            )
      | inr u ↦ elim (Bool-cases (str_eq m "least_conn")) [
        | inl v ↦
            rw (t, u, v)
              (
                inr (inr ((eq_iff m "least_conn").0 v)),
                unfold LeastConnection.get_healthy_addresses in all_healthy us,
              )
        | inr v ↦ rw (t, u, v) (unknown m t u v)
      ]
    ]
  ]

  with_balancer-Makes :
      (name : String) (c : ProxyConfig) (o : Option Balancing)
      → c.upstreams ≢ []
      → Chosen c.load_balancing_method c.upstreams o
      → Makes name c (with_balancer gen rand name c o)
  unfolding with_balancer
  with_balancer-Makes name c none n h = strange n h
  with_balancer-Makes name c (some b) n h = made _ n h.0 h.1 refl refl

  with_upstreams-Makes :
      (name : String) (c : ProxyConfig) (us : List String)
      → c.upstreams ≡ us
      → Makes name c (with_upstreams gen rand name c us)
  unfolding with_upstreams
  with_upstreams-Makes name c [] e = bare e
  with_upstreams-Makes name c (u ∷ us) e =
      with_balancer-Makes name c (choose_balancer gen rand c.load_balancing_method (u ∷ us))
        (λ f. nil≢cons (sym f ∙ e))
        (subst
          (λ x.
            Chosen c.load_balancing_method x
              (choose_balancer gen rand c.load_balancing_method (u ∷ us)))
          (sym e) (choose_balancer-Chosen c.load_balancing_method (u ∷ us)))

  -- NewProxyService makes a service exactly for a list of upstreams that is not empty and one of the
  -- three methods; the service has no listeners, and its balancer calls all upstreams healthy. Else
  -- it returns the error of the first of the two tests that fails.
  pub new_proxy_service-Makes :
      (name : String) (config : Option ProxyConfig)
      → Makes name (or_default_config config) (new_proxy_service gen rand name config)
  unfolding new_proxy_service
  new_proxy_service-Makes name config =
      with_upstreams-Makes name (or_default_config config) (or_default_config config).upstreams refl

  -- SimpleProxyService always ends the program by log.Fatalf, whatever its addresses.
  pub simple_proxy_service-fatal :
      (listen_addr upstream_addr : String) (l : Listened)
      → simple_proxy_service gen rand listen_addr upstream_addr l
        ≡ fatal "Failed to create proxy service" (unknown_method "")
  unfolding simple_proxy_service new_proxy_service with_upstreams choose_balancer with_balancer
      simple_from
  simple_proxy_service-fatal listen_addr upstream_addr l = refl
