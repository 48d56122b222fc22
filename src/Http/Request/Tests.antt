-- ===== src/Http/Request/Tests.antt =====
-- pkg/http/headers.go, type RequestHeader, at concrete inputs.
use pin_go.Base.{String, str_eq, ◌≡◌, refl, List, [], ◌∷◌, none, some, if◌then◌else◌}
use pin_go.Base.Dict.{lookup, insert, delete}
use pin_go.Errors.{new}
use pin_go.Http.Headers.{first_value, no_name, add, assign, value_of, del, headers_text}
use pin_go.Http.Headers.Values.{values}
use pin_go.Http.Request.{
  RequestHeader, changed, crashed, or_nothing, built, rejected, no_method, build_request,
  insert_header, set_header, get_header, remove_header, request_text,
}
use pin_go.Http.Request.Changes.{Edit, sets, inserts, removes, run, values_left, run-build_request}

program : Unit {0}
unfolding build_request insert_header set_header get_header remove_header request_text headers_text
    add assign value_of del lookup insert delete new
program = tt

-- One name has two spellings.
abbrev canonical : String → String
canonical name = if str_eq name "host" then "Host" else name

abbrev request : RequestHeader
request = record {
  method = "GET";
  uri = "/";
  version = "HTTP/1.1";
  headers = some (("Host", "a" ∷ "b" ∷ []) ∷ []);
}

abbrev empty : RequestHeader
empty = record request { headers = some [] }

builds : build_request "GET" "/" none ≡ built empty
unfolding program
builds = refl

wants_a_method : build_request "" "/" none ≡ rejected no_method
unfolding program
wants_a_method = refl

no_such_name : get_header canonical request "HOST" ≡ ""
unfolding program
no_such_name = refl

other_spelling : get_header canonical request "host" ≡ "a"
unfolding program
other_spelling = refl

no_empty_name : set_header canonical request "" "c" ≡ changed request (some no_name)
unfolding program
no_empty_name = refl

prints : request_text (λ ks. ks) request ≡ "GET / HTTP/1.1\r\nHost: a\r\nHost: b\r\n\r\n"
unfolding program
prints = refl

nil_map : set_header canonical (record request { headers = none }) "A" "c" ≡ crashed
unfolding program
nil_map = refl

abbrev edits : List Edit
edits = sets "Host" "c" ∷ inserts "host" "d" ∷ inserts "" "e" ∷ removes "A" ∷ []

run-build_request_example :
    (r' : RequestHeader) × (run canonical empty edits ≡ some r')
    × (r'.method ≡ "GET")
    × (r'.uri ≡ "/")
    × (r'.version ≡ "HTTP/1.1")
    × ((other : String)
        → (values canonical (or_nothing r'.headers) other ≡ values_left canonical other [] edits)
          × (get_header canonical r' other ≡ first_value (values_left canonical other [] edits)))
run-build_request_example = run-build_request canonical "GET" "/" none empty edits builds

both_values : values_left canonical "Host" [] edits ≡ "c" ∷ "d" ∷ []
both_values = refl
