-- ===== src/Proxy/Forwarding/Relaying.antt =====
-- pkg/proxy/proxy.go, proxyRequest: what it sends and what it relays.
use Prim.Native.String.{◌++◌}
use mathlib.Core.List.{◌++◌ as ◌append◌}
use pin_go.Base.{
  String, ◌≡◌, ◌⊎◌, Bool, true, false, List, [], ◌∷◌, Option, none, some, pos, if◌then◌else◌,
}
use pin_go.Base.Dict.{Distinct}
use pin_go.Errors.{Error, http_status_code}
use pin_go.Http.Headers.{Values}
use pin_go.Http.Headers.Values.{values, same_name}
use pin_go.Proxy.Forwarding.{
  Network, Url, Request, Outgoing, Response, parsed, malformed, responded, unreachable, Writer,
  Proxied, write_header, copy_body, get_client_ip, get_scheme, proxy_url, writable,
}
use pin_go.Proxy.Forwarding.Copying.{Canonical}

module _ (net : Network) where
  -- The request that is sent on: to the URL that was made for it, with the headers of the client but
  -- for the three that tell where it comes from.
  pub record Forwards (r : Request) (url : Url) (out : Outgoing) : Type 0 where
    pub same_method : out.method ≡ r.method
    pub same_body : out.body ≡ r.body
    pub to_url : out.url ≡ url
    pub headers :
        (name : String)
        → let same : String → Bool = λ x. same_name net.canonical x name in
          values net.canonical out.header name ≡ (
            if same "X-Forwarded-Host"
            then r.host ∷ []
            else if same "X-Forwarded-Proto"
            then get_scheme net r ∷ []
            else if same "X-Forwarded-For"
            then get_client_ip net r ∷ []
            else values net.canonical r.header name)

  -- The response that is relayed: its status, its headers behind those of the writer, its body.
  pub record Relays (w : Writer) (resp : Response) (after : Writer) : Type 0 where
    pub calls_made :
        after.calls
        ≡ w.calls append (write_header resp.status_code after.header ∷ copy_body resp.body ∷ [])
    pub headers :
        (name : String)
        → values net.canonical after.header name
          ≡ values net.canonical w.header name append values net.canonical resp.header name

  -- An error whose status is 502.
  abbrev pub Fails : Option Error → Type 0
  Fails o = (e : Error) × (o ≡ some e) × (http_status_code e ≡ pos 502)

  -- An error before anything is written.
  abbrev pub Early : Writer → Option Outgoing → Proxied → Type 0
  Early w sent p = (p.sent ≡ sent) × (p.writer ≡ w) × Fails p.error × (p.panicked ≡ false)

  -- What a call comes to, for the writer, the client's request and the upstream.
  pub data Outcome (w : Writer) (r : Request) (address : String) : Proxied → Type 0 where
    no_url :
        {p : Proxied} {text : String}
        → net.parse_url ("http://" ++ address) ≡ malformed text
        → Early w none p
        → Outcome w r address p
    no_request :
        {p : Proxied} {upstream : Url} {text : String}
        → net.parse_url ("http://" ++ address) ≡ parsed upstream
        → net.new_request r.method (proxy_url net r upstream) ≡ malformed text
        → Early w none p
        → Outcome w r address p
    no_response :
        {p : Proxied} {upstream url : Url} {out : Outgoing} {text : String}
        → net.parse_url ("http://" ++ address) ≡ parsed upstream
        → net.new_request r.method (proxy_url net r upstream) ≡ parsed url
        → Forwards r url out
        → net.send out ≡ unreachable text
        → Early w (some out) p
        → Outcome w r address p
    bad_status :
        {p : Proxied} {upstream url : Url} {out : Outgoing} {resp : Response}
        → net.parse_url ("http://" ++ address) ≡ parsed upstream
        → net.new_request r.method (proxy_url net r upstream) ≡ parsed url
        → Forwards r url out
        → net.send out ≡ responded resp
        → writable resp.status_code ≡ false
        → p.sent ≡ some out
        → p.writer.calls ≡ w.calls
        → p.panicked ≡ true
        → Outcome w r address p
    relayed :
        {p : Proxied} {upstream url : Url} {out : Outgoing} {resp : Response}
        → net.parse_url ("http://" ++ address) ≡ parsed upstream
        → net.new_request r.method (proxy_url net r upstream) ≡ parsed url
        → Forwards r url out
        → net.send out ≡ responded resp
        → writable resp.status_code ≡ true
        → p.sent ≡ some out
        → Relays w resp p.writer
        → ((resp.broken ≡ none) × (p.error ≡ none))
          ⊎ ((text : String) × (resp.broken ≡ some text) × Fails p.error)
        → p.panicked ≡ false
        → Outcome w r address p

  -- Header maps as net/http gives them: no name twice, and each in its canonical form.
  abbrev pub Good : List (String × Values) → Type 0
  Good h = Distinct h × Canonical net h
