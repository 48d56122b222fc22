-- ===== src/Proxy/Service/Turns.antt =====
-- pkg/proxy/proxy.go, handleRequest over a RoundRobinBalancer of pkg/loadbalancing/balancer.go: where
-- the requests go one after the other.
use pin_go.Base.{
  ℕ, ◌+◌, ◌^◌, ◌<◌, ◌≡◌, refl, ap, ◌∙◌, Bool-cases, inl, inr, if◌then◌else◌, List, [], ◌∷◌, some,
  length, get_elem?,
}
use pin_go.LoadBalancing.Backends.{Backend, get_healthy_backends}
use pin_go.LoadBalancing.Contract.{Selection, selected, failed, crashed}
use pin_go.LoadBalancing.RoundRobin.{RoundRobin, select_backend}
use pin_go.LoadBalancing.RoundRobin.Turns.{round_robin, after_turns, select_backend_fair}
use pin_go.Proxy.Forwarding.{Network, Request, Writer, proxy_request}
use pin_go.Proxy.Service.{
  ProxyService, Handled, handled, panicked, answer_error, after_selection, handle_request,
}

-- The service that balances by this state of a round robin.
pub balanced_by : ProxyService → RoundRobin → ProxyService
unfolding round_robin
balanced_by p r = record p { load_balancer = record { interface = round_robin; state = r } }

abbrev pub service_after : Handled → ProxyService
service_after (handled p q) = p
service_after (panicked p) = p

module _ (net : Network) where
  -- The service after requests, each with the writer of its answer.
  pub after_requests : ProxyService → List (Writer × Request) → ProxyService
  after_requests p [] = p
  after_requests p ((w, r) ∷ rs) = after_requests (service_after (handle_request net p w r)) rs

  handle_request-turn :
      (p : ProxyService) (b : RoundRobin) (w : Writer) (r : Request)
      → handle_request net (balanced_by p b) w r
        ≡ after_selection net (balanced_by p (select_backend b).0) w r (select_backend b).1
  unfolding handle_request balanced_by round_robin
  handle_request-turn p b w r = refl

  service_after-selection :
      (p : ProxyService) (w : Writer) (r : Request) (s : Selection)
      → service_after (after_selection net p w r s) ≡ p
  unfolding after_selection
  service_after-selection p w r (selected a) =
      elim (Bool-cases (proxy_request net w r a).panicked) [ inl t ↦ rw t refl | inr t ↦ rw t refl ]
  service_after-selection p w r (failed e) = refl
  service_after-selection p w r crashed = refl

  after_requests-turns :
      (p : ProxyService) (b : RoundRobin) (rs : List (Writer × Request))
      → after_requests (balanced_by p b) rs ≡ balanced_by p (after_turns (length rs) b)
  unfolding after_requests after_turns
  after_requests-turns p b [] = refl
  after_requests-turns p b ((w, r) ∷ rs) =
      ap (λ x. after_requests x rs)
        (ap service_after (handle_request-turn p b w r)
          ∙ service_after-selection (balanced_by p (select_backend b).0) w r (select_backend b).1)
      ∙ after_requests-turns p (select_backend b).0 rs

  -- Over a round robin, no healthy backend waits longer than a round: there is a number below that of
  -- the healthy backends such that the next request after any requests of that number is proxied to
  -- the backend, and handled by what comes of that: a panic, or an answer to an error. The counter does not wrap in between.
  pub handle_request_fair :
      (p : ProxyService) (b : RoundRobin) (i : ℕ) (backend : Backend)
      → get_elem? (get_healthy_backends b.backends) i ≡ some backend
      → b.current + length (get_healthy_backends b.backends) < 2 ^ 64
      → (k : ℕ) × (k < length (get_healthy_backends b.backends))
        × ((rs : List (Writer × Request)) (w : Writer) (r : Request)
            → length rs ≡ k
            → let q = proxy_request net w r backend.address in
              handle_request net (after_requests (balanced_by p b) rs) w r ≡ (
                let p' = balanced_by p (select_backend (after_turns k b)).0 in
                if q.panicked then panicked p' else handled p' (answer_error q q.error)))
  handle_request_fair p b i backend e h =
      let (k, less, lands) = select_backend_fair b i backend e h in
      (
        k,
        less,
        λ rs w r same.
            ap (λ x. handle_request net x w r)
              (after_requests-turns p b rs ∙ ap (λ n. balanced_by p (after_turns n b)) same)
            ∙ handle_request-turn p (after_turns k b) w r
            ∙ ap (after_selection net (balanced_by p (select_backend (after_turns k b)).0) w r)
                lands
            ∙ (unfold after_selection in refl),
      )
