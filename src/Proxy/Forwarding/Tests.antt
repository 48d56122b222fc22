-- ===== src/Proxy/Forwarding/Tests.antt =====
-- pkg/proxy/proxy.go, proxyRequest, at concrete inputs.
use pin_go.Base.{str_eq, ◌≡◌, refl, true, false, [], ◌∷◌, none, some, pos, if◌then◌else◌}
use pin_go.Base.Dict.{lookup, insert, RangeOrder}
use pin_go.Http.Headers.{Values, add, assign, value_of}
use pin_go.Proxy.Forwarding.{
  Network, Request, Response, Received, parsed, malformed, responded, unreachable, Writer,
  write_header, copy_body, up_to, add_all, copy_entries, copy_headers, get_client_ip, get_scheme,
  forwarded_header, outgoing, wrapped_error, relay, after_send, send_request, with_url,
  proxy_request,
}
use pin_go.Proxy.Forwarding.Relaying.{Good}

program : Unit {0}
unfolding up_to add_all copy_entries copy_headers get_client_ip get_scheme forwarded_header outgoing
    relay after_send send_request with_url proxy_request lookup insert add assign value_of
program = tt

abbrev in_order : RangeOrder Values
in_order = record { range = λ m. m; lookup-range = λ k m. refl; range-Distinct = λ m d. d }

abbrev page : Response
page = record { status_code = pos 200; header = ("Server", "x" ∷ []) ∷ []; body = 8; broken = none }

-- One host cannot be parsed, one does not answer; the names of headers are canonical as they are.
abbrev net : Network
net = record {
  canonical = λ name. name;
  order = in_order;
  parse_url = λ s.
      if str_eq s "http://%"
      then malformed "bad escape"
      else parsed (record { scheme = "http"; host = s; path = ""; raw_query = "" });
  new_request = λ method url. if str_eq method "G T" then malformed "bad method" else parsed url;
  split_host = λ s. up_to b':' s;
  send = λ out. if str_eq out.url.host "http://down" then unreachable "refused" else responded page;
}

abbrev request : Request
request = record {
  method = "GET";
  path = "/a";
  raw_query = "q=1";
  host = "shop";
  remote_addr = "10.0.0.1:99";
  tls = false;
  header = ("Accept", "b" ∷ "c" ∷ []) ∷ ("X-Forwarded-For", "1.2.3.4, 5.6.7.8" ∷ []) ∷ [];
  body = 3;
}

abbrev writer : Writer
writer = record { header = []; calls = [] }

first_of_chain : get_client_ip net request ≡ "1.2.3.4"
unfolding program
first_of_chain = refl

own_address : get_client_ip net (record request { header = [] }) ≡ "10.0.0.1"
unfolding program
own_address = refl

plain_scheme : get_scheme net request ≡ "http"
unfolding program
plain_scheme = refl

relays_the_page : (proxy_request net writer request "up").writer ≡ record {
  header = ("Server", "x" ∷ []) ∷ [];
  calls = write_header (pos 200) (("Server", "x" ∷ []) ∷ []) ∷ copy_body 8 ∷ [];
}
unfolding program
relays_the_page = refl

not_sent : (proxy_request net writer request "%").sent ≡ none
unfolding program
not_sent = refl

no_answer :
    (proxy_request net writer request "down").error
    ≡ some (wrapped_error net "failed to proxy request" "refused")
unfolding program
no_answer = refl

-- A status below 100 is a panic of WriteHeader.
bad_status :
    (relay net writer
      (outgoing net request (record { scheme = "http"; host = "up"; path = ""; raw_query = "" }))
      (record page { status_code = pos 99 })).panicked
    ≡ true
unfolding program
bad_status = refl

-- What holds of the headers of a response.
abbrev Fine : Received → Type 0
Fine (responded resp) = Good net resp.header
Fine (unreachable text) = Unit {0}
