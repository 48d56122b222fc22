-- ===== src/Proxy/Forwarding/Status.antt =====
-- pkg/proxy/proxy.go, proxyRequest: how it ends for its caller.
use Prim.Native.String.{◌++◌}
use mathlib.Core.List.{◌++◌ as ◌append◌}
use pin_go.Base.{
  String, ◌≡◌, refl, inl, inr, Bool-cases, true, false, [], ◌∷◌, Option, none, some, pos,
}
use pin_go.Errors.{Error, http_status_code, default_status, new_with_cause}
use pin_go.Proxy.Forwarding.{
  Network, Request, Outgoing, Response, ParsedUrl, parsed, malformed, Received, responded,
  unreachable, Writer, Proxied, write_header, copy_body, outgoing, proxy_url, wrapped_error,
  copy_error, writable, fails, relay, after_send, send_request, with_url, proxy_request,
}

module _ (net : Network) where
  -- The status and the body of a response are written.
  abbrev pub Written : Writer → Response → Proxied → Type 0
  Written w resp q =
      q.writer.calls
      ≡ w.calls append (write_header resp.status_code q.writer.header ∷ copy_body resp.body ∷ [])

  -- The ends of proxyRequest: an error with the status 502 before anything is written; a panic on the
  -- status of a response, before anything is written; a response that is relayed; one whose body
  -- breaks off.
  pub data Ends (w : Writer) : Proxied → Type 0 where
    early :
        {q : Proxied} (e : Error)
        → q.panicked ≡ false
        → q.error ≡ some e
        → http_status_code e ≡ pos 502
        → q.writer ≡ w
        → Ends w q
    dies :
        {q : Proxied} (out : Outgoing) (resp : Response)
        → q.panicked ≡ true
        → net.send out ≡ responded resp
        → writable resp.status_code ≡ false
        → q.writer.calls ≡ w.calls
        → Ends w q
    complete :
        {q : Proxied} (resp : Response)
        → q.panicked ≡ false
        → q.error ≡ none
        → writable resp.status_code ≡ true
        → Written w resp q
        → Ends w q
    cut_off :
        {q : Proxied} (e : Error) (resp : Response)
        → q.panicked ≡ false
        → q.error ≡ some e
        → http_status_code e ≡ pos 502
        → writable resp.status_code ≡ true
        → Written w resp q
        → Ends w q

  fails-Ends :
      (w : Writer) (sent : Option Outgoing) (message text : String)
      → Ends w (fails net w sent (wrapped_error net message text))
  unfolding http_status_code default_status new_with_cause
  fails-Ends w sent message text = early (wrapped_error net message text) refl refl refl refl

  copied-Ends :
      (w : Writer) (resp : Response) (q : Proxied) (broken : Option String)
      → q.panicked ≡ false
      → q.error ≡ copy_error net broken
      → writable resp.status_code ≡ true
      → Written w resp q
      → Ends w q
  unfolding http_status_code default_status new_with_cause
  copied-Ends w resp q none n e t h = complete resp n e t h
  copied-Ends w resp q (some text) n e t h =
      cut_off (wrapped_error net "failed to copy response body" text) resp n e refl t h

  relay-Ends :
      (w : Writer) (out : Outgoing) (resp : Response)
      → net.send out ≡ responded resp
      → Ends w (relay net w out resp)
  unfolding relay
  relay-Ends w out resp s = elim (Bool-cases (writable resp.status_code)) [
    | inl t ↦ rw t (copied-Ends w resp _ resp.broken refl refl t refl)
    | inr t ↦ rw t (dies out resp refl s t refl)
  ]

  after_send-Ends :
      (w : Writer) (out : Outgoing) (received : Received)
      → net.send out ≡ received
      → Ends w (after_send net w out received)
  unfolding after_send
  after_send-Ends w out (responded resp) s = relay-Ends w out resp s
  after_send-Ends w out (unreachable text) s =
      fails-Ends w (some out) "failed to proxy request" text

  send_request-Ends :
      (w : Writer) (r : Request) (made : ParsedUrl) → Ends w (send_request net w r made)
  unfolding send_request
  send_request-Ends w r (parsed url) =
      after_send-Ends w (outgoing net r url) (net.send (outgoing net r url)) refl
  send_request-Ends w r (malformed text) = fails-Ends w none "failed to create proxy request" text

  with_url-Ends : (w : Writer) (r : Request) (url : ParsedUrl) → Ends w (with_url net w r url)
  unfolding with_url
  with_url-Ends w r (malformed text) = fails-Ends w none "invalid upstream URL" text
  with_url-Ends w r (parsed upstream) =
      send_request-Ends w r (net.new_request r.method (proxy_url net r upstream))

  pub proxy_request-Ends :
      (w : Writer) (r : Request) (address : String) → Ends w (proxy_request net w r address)
  unfolding proxy_request
  proxy_request-Ends w r address = with_url-Ends w r (net.parse_url ("http://" ++ address))
