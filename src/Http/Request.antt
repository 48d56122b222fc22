-- ===== src/Http/Request.antt =====
-- pkg/http/headers.go, type RequestHeader. A nil map of headers is `none`.
mod Changes
mod Tests
use Prim.Native.String.{◌++◌}
use pin_go.Base.{
  String, str_eq, Bool, true, false, List, [], ◌∷◌, Option, none, some, if◌then◌else◌,
}
use pin_go.Base.Dict.{Entries}
use pin_go.Errors.{Error, invalid_http_header, new}
use pin_go.Http.Headers.{Values, no_name, add, assign, value_of, del, headers_text}

pub record RequestHeader : Type 0 where
  pub method : String
  pub uri : String
  pub version : String
  pub headers : Option (Entries Values)

pub data Built : Type 0 where
  built : RequestHeader → Built
  rejected : Error → Built

abbrev pub no_method : Error
no_method = new invalid_http_header "method cannot be empty"

abbrev pub no_uri : Error
no_uri = new invalid_http_header "URI cannot be empty"

abbrev version_or : Option String → String
version_or none = "HTTP/1.1"
version_or (some v) = v

unfoldable pub build_request : String → String → Option String → Built
build_request method uri version =
    if str_eq method ""
    then rejected no_method
    else if str_eq uri ""
    then rejected no_uri
    else built
        (record { method = method; uri = uri; version = version_or version; headers = some [] })

-- What SetHeader and InsertHeader come to; a write into a nil map panics.
pub data Changed : Type 0 where
  changed : RequestHeader → Option Error → Changed
  crashed : Changed

module _ (canonical : String → String) where
  unfoldable pub insert_header : RequestHeader → String → String → Changed
  insert_header r name value =
      if str_eq name "" then changed r (some no_name) else (elim r.headers [
        | none ↦ crashed
        | some h ↦ changed (record r { headers = some (add canonical h name value) }) none
      ])

  unfoldable pub set_header : RequestHeader → String → String → Changed
  set_header r name value = if str_eq name "" then changed r (some no_name) else (elim r.headers [
    | none ↦ crashed
    | some h ↦ changed (record r { headers = some (assign canonical h name value) }) none
  ])

  unfoldable pub get_header : RequestHeader → String → String
  get_header r name = elim r.headers [ none ↦ "" | some h ↦ value_of canonical h name ]

  -- A delete from a nil map does nothing.
  unfoldable pub remove_header : RequestHeader → String → RequestHeader
  remove_header r name = elim r.headers [
    | none ↦ r
    | some h ↦ record r { headers = some (del canonical h name) }
  ]

abbrev pub or_nothing : Option (Entries Values) → Entries Values
or_nothing none = []
or_nothing (some h) = h

unfoldable pub request_text : (List String → List String) → RequestHeader → String
unfolding headers_text
request_text sorted r =
    r.method
    ++ (" "
        ++ (r.uri
            ++ (" " ++ (r.version ++ ("\r\n" ++ headers_text sorted (or_nothing r.headers))))))
