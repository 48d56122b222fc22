-- ===== src/Proxy/Service/Handling.antt =====
-- pkg/proxy/proxy.go, handleRequest over any implementation of the interface LoadBalancer.
use pin_go.Base.{String, ◌≡◌, refl, ap, ◌∙◌, true, false, if◌then◌else◌, List, [], none, some, pos}
use pin_go.Errors.{Error}
use pin_go.LoadBalancing.Contract.{Selection, selected, failed, crashed, Among, Answers}
use pin_go.Proxy.Forwarding.{
  Network, Request, Writer, Response, Outgoing, responded, Proxied, writable, proxy_request,
}
use pin_go.Proxy.Forwarding.Status.{
  Ends, Written, early, dies, complete, cut_off, proxy_request-Ends,
}
use pin_go.Proxy.Service.{
  ProxyService, Handled, handled, panicked, with_page, answer_error, after_selection, with_state,
  handle_request,
}

-- The addresses that the balancer of the service calls healthy.
abbrev pub healthy : ProxyService → List String
healthy p = p.load_balancer.interface.get_healthy_backends p.load_balancer.state

module _ (net : Network) where
  -- The ends of a request, where only the state of the balancer has changed.
  pub data Handles (p : ProxyService) (w : Writer) (r : Request) : Handled → Type 1 where
    unavailable :
        {b : p.load_balancer.interface.Balancer}
        → healthy (with_state net p b) ≡ healthy p
        → healthy p ≡ []
        → Handles p w r (
            handled (with_state net p b) (record {
              writer = with_page "No available upstream" (pos 502) w;
              sent = none;
              error = none;
              panicked = false;
            }))
    served :
        {b : p.load_balancer.interface.Balancer} (a : String) (resp : Response) (q : Proxied)
        → healthy (with_state net p b) ≡ healthy p
        → Among a (healthy p)
        → writable resp.status_code ≡ true
        → Written net w resp (proxy_request net w r a)
        → (proxy_request net w r a).error ≡ none
        → q.writer ≡ (proxy_request net w r a).writer
        → q.sent ≡ (proxy_request net w r a).sent
        → Handles p w r (handled (with_state net p b) q)
    -- Nothing is written but the answer.
    refused :
        {b : p.load_balancer.interface.Balancer} (a : String) (e : Error) (q : Proxied)
        → healthy (with_state net p b) ≡ healthy p
        → Among a (healthy p)
        → (proxy_request net w r a).error ≡ some e
        → q.writer ≡ with_page "Proxy error" (pos 502) w
        → q.sent ≡ (proxy_request net w r a).sent
        → Handles p w r (handled (with_state net p b) q)
    -- The answer comes behind the status and the part of the body that were relayed.
    broken :
        {b : p.load_balancer.interface.Balancer} (a : String) (e : Error) (resp : Response)
        (q : Proxied)
        → healthy (with_state net p b) ≡ healthy p
        → Among a (healthy p)
        → writable resp.status_code ≡ true
        → Written net w resp (proxy_request net w r a)
        → (proxy_request net w r a).error ≡ some e
        → q.writer ≡ with_page "Proxy error" (pos 502) (proxy_request net w r a).writer
        → Handles p w r (handled (with_state net p b) q)
    -- WriteHeader panics on the status of the response.
    dead :
        {b : p.load_balancer.interface.Balancer} (a : String) (out : Outgoing) (resp : Response)
        → healthy (with_state net p b) ≡ healthy p
        → Among a (healthy p)
        → net.send out ≡ responded resp
        → writable resp.status_code ≡ false
        → Handles p w r (panicked (with_state net p b))

  upstream-Handles :
      (p : ProxyService) (w : Writer) (r : Request) (b : p.load_balancer.interface.Balancer)
      (a : String)
      → healthy (with_state net p b) ≡ healthy p
      → Among a (healthy p)
      → Ends net w (proxy_request net w r a)
      → let q = proxy_request net w r a in
        Handles p w r (
          if q.panicked
          then panicked (with_state net p b)
          else handled (with_state net p b) (answer_error q q.error))
  unfolding answer_error
  upstream-Handles p w r b a k h (early e n f g same) = rw n (
      rw (f, answer_error)
        (refused a e _ k h f
          (ap (λ s. with_page "Proxy error" s (proxy_request net w r a).writer) g
            ∙ ap (with_page "Proxy error" (pos 502)) same)
          refl))
  upstream-Handles p w r b a k h (dies out resp n s t c) = rw n (dead a out resp k h s t)
  upstream-Handles p w r b a k h (complete resp n f t c) =
      rw n (rw (f, answer_error) (served a resp _ k h t c f refl refl))
  upstream-Handles p w r b a k h (cut_off e resp n f g t c) = rw n (
      rw (f, answer_error)
        (broken a e resp _ k h t c f
          (ap (λ s. with_page "Proxy error" s (proxy_request net w r a).writer) g)))

  selection-Handles :
      (p : ProxyService) (w : Writer) (r : Request) (b : p.load_balancer.interface.Balancer)
      (s : Selection)
      → healthy (with_state net p b) ≡ healthy p
      → Answers (healthy p) s
      → Handles p w r (after_selection net (with_state net p b) w r s)
  unfolding after_selection
  selection-Handles p w r b (selected a) k h =
      upstream-Handles p w r b a k h (proxy_request-Ends net w r a)
  selection-Handles p w r b (failed e) k h = unavailable k h.0
  selection-Handles p w r b crashed k h = absurd h

  -- For requests that are handled one after the other, whatever the balancer: without a healthy
  -- backend handleRequest answers 502 and sends nothing; else it proxies the request to a healthy
  -- backend. It relays the response, and panics only in WriteHeader, on a response whose status is
  -- not from 100 to 999. An error before anything is written is answered with 502; that of a body
  -- that breaks off is answered with 502 behind the status that is written already. It changes
  -- nothing of the service but the state of its balancer, and the health of no backend.
  pub handle_request-Handles :
      (p : ProxyService) (w : Writer) (r : Request) → Handles p w r (handle_request net p w r)
  unfolding handle_request
  handle_request-Handles p w r =
      let lb = p.load_balancer.interface in
      let s = p.load_balancer.state in
      selection-Handles p w r (lb.select_backend s).0 (lb.select_backend s).1
        (lb.select_keeps_health s) (lb.select_answers s)
