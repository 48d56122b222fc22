-- ===== src/Proxy/Forwarding.antt =====
-- pkg/proxy/proxy.go, proxyRequest and what it uses. What net/http, net/url and net do is a record
-- of their functions; a body is the number that names it. A ResponseWriter is its header map with
-- the calls made on it.
pub mod Copying
pub mod Relaying
pub mod Status
mod Tests
use Prim.Native.Char.{code}
use Prim.Native.String.{◌++◌}
use mathlib.Core.List.{◌++◌ as ◌append◌}
use pin_go.Base.{
  ℕ, String, str_eq, ◌==◌, Bool, true, false, List, [], ◌∷◌, Option, none, some, ℤ, pos, leb_ℤ,
  ◌&&◌, if◌then◌else◌,
}
use pin_go.Base.Dict.{Entries, RangeOrder}
use pin_go.Errors.{Error, foreign, proxy_error, new_with_cause}
use pin_go.Http.Headers.{Values, add, assign, value_of}

pub record Url : Type 0 where
  pub scheme : String
  pub host : String
  pub path : String
  pub raw_query : String

pub record Request : Type 0 where
  pub method : String
  pub path : String
  pub raw_query : String
  pub host : String
  pub remote_addr : String
  pub tls : Bool
  pub header : Entries Values
  pub body : ℕ

-- The request that is sent on.
pub record Outgoing : Type 0 where
  pub method : String
  pub url : Url
  pub header : Entries Values
  pub body : ℕ

-- `broken` is the error that io.Copy of the body ends with.
pub record Response : Type 0 where
  pub status_code : ℤ
  pub header : Entries Values
  pub body : ℕ
  pub broken : Option String

pub data ParsedUrl : Type 0 where
  parsed : Url → ParsedUrl
  malformed : String → ParsedUrl

pub data Received : Type 0 where
  responded : Response → Received
  unreachable : String → Received

-- The canonical form of a name, the order of a `range` over headers, url.Parse, the URL that
-- NewRequestWithContext makes of the text of a URL, the host of net.SplitHostPort and `Client.Do`.
pub record Network : Type 0 where
  pub canonical : String → String
  pub order : RangeOrder Values
  pub parse_url : String → ParsedUrl
  pub new_request : String → Url → ParsedUrl
  pub split_host : String → String
  pub send : Outgoing → Received

-- The calls of a handler: WriteHeader with the header map at that time, io.Copy and http.Error.
pub data Call : Type 0 where
  write_header : ℤ → Entries Values → Call
  copy_body : ℕ → Call
  error_page : String → ℤ → Call

pub record Writer : Type 0 where
  pub header : Entries Values
  pub calls : List Call

-- The writer afterwards, the request that was sent and the result of `proxyRequest`, and whether it
-- has panicked.
pub record Proxied : Type 0 where
  pub writer : Writer
  pub sent : Option Outgoing
  pub error : Option Error
  pub panicked : Bool

-- The statuses that WriteHeader of net/http takes; it panics on any other.
abbrev pub writable : ℤ → Bool
writable status = leb_ℤ (pos 100) status && leb_ℤ status (pos 999)

-- The first part of `strings.Split` by one character.
unfoldable pub up_to : ℕ → String → String
up_to sep String.[] = ""
up_to sep (String.◌∷◌ c s) =
    let rest = up_to sep s in if code c == sep then "" else String.◌∷◌ c rest

module _ (net : Network) where
  -- The loops of `copyHeaders`, over the values of a name and over the names.
  pub add_all : Entries Values → String → Values → Entries Values
  add_all dst key [] = dst
  add_all dst key (v ∷ vs) = add_all (add net.canonical dst key v) key vs

  pub copy_entries : Entries Values → Entries Values → Entries Values
  unfolding add_all
  copy_entries dst [] = dst
  copy_entries dst ((key, vs) ∷ src) = copy_entries (add_all dst key vs) src

  unfoldable pub copy_headers : Entries Values → Entries Values → Entries Values
  unfolding copy_entries
  copy_headers dst src = copy_entries dst (net.order.range src)

  unfoldable pub get_client_ip : Request → String
  unfolding up_to
  get_client_ip r =
      let x_real_ip = value_of net.canonical r.header "X-Real-Ip" in
      let x_forwarded_for = value_of net.canonical r.header "X-Forwarded-For" in
      if str_eq x_real_ip ""
      then (if str_eq x_forwarded_for ""
          then net.split_host r.remote_addr
          else up_to b',' x_forwarded_for)
      else x_real_ip

  unfoldable pub get_scheme : Request → String
  get_scheme r =
      let proto = value_of net.canonical r.header "X-Forwarded-Proto" in
      if r.tls then "https" else if str_eq proto "" then "http" else proto

  -- The headers of the new request, which has none before.
  unfoldable pub forwarded_header : Request → Entries Values
  unfolding copy_headers get_client_ip get_scheme
  forwarded_header r =
      let copied = copy_headers [] r.header in
      let with_for = assign net.canonical copied "X-Forwarded-For" (get_client_ip r) in
      let with_proto = assign net.canonical with_for "X-Forwarded-Proto" (get_scheme r) in
      assign net.canonical with_proto "X-Forwarded-Host" r.host

  abbrev pub proxy_url : Request → Url → Url
  proxy_url r upstream = record {
    scheme = upstream.scheme;
    host = upstream.host;
    path = r.path;
    raw_query = r.raw_query;
  }

  -- The new request, where `url` is the one that NewRequestWithContext has made.
  unfoldable pub outgoing : Request → Url → Outgoing
  unfolding forwarded_header
  outgoing r url = record {
    method = r.method;
    url = url;
    header = forwarded_header r;
    body = r.body;
  }

  -- An error value of `proxyRequest`.
  abbrev pub wrapped_error : String → String → Error
  wrapped_error message text = new_with_cause proxy_error message (foreign text)

  abbrev pub copy_error : Option String → Option Error
  copy_error none = none
  copy_error (some text) = some (wrapped_error "failed to copy response body" text)

  -- The rest of `proxyRequest` on the response.
  unfoldable pub relay : Writer → Outgoing → Response → Proxied
  unfolding copy_headers
  relay w out resp =
      let header = copy_headers w.header resp.header in
      if writable resp.status_code
      then record {
        writer = record {
          header = header;
          calls = w.calls append (write_header resp.status_code header ∷ copy_body resp.body ∷ []);
        };
        sent = some out;
        error = copy_error resp.broken;
        panicked = false;
      }
      else record {
        writer = record { header = header; calls = w.calls };
        sent = some out;
        error = none;
        panicked = true;
      }

  -- A failure before anything is written.
  abbrev pub fails : Writer → Option Outgoing → Error → Proxied
  fails w sent e = record { writer = w; sent = sent; error = some e; panicked = false }

  after_send : Writer → Outgoing → Received → Proxied
  unfolding relay
  after_send w out (responded resp) = relay w out resp
  after_send w out (unreachable text) =
      fails w (some out) (wrapped_error "failed to proxy request" text)

  send_request : Writer → Request → ParsedUrl → Proxied
  unfolding after_send outgoing
  send_request w r (parsed url) = after_send w (outgoing r url) (net.send (outgoing r url))
  send_request w r (malformed text) =
      fails w none (wrapped_error "failed to create proxy request" text)

  with_url : Writer → Request → ParsedUrl → Proxied
  unfolding send_request
  with_url w r (malformed text) = fails w none (wrapped_error "invalid upstream URL" text)
  with_url w r (parsed upstream) =
      send_request w r (net.new_request r.method (proxy_url r upstream))

  unfoldable pub proxy_request : Writer → Request → String → Proxied
  unfolding with_url
  proxy_request w r upstream = with_url w r (net.parse_url ("http://" ++ upstream))
