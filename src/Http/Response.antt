-- ===== src/Http/Response.antt =====
-- pkg/http/headers.go, type ResponseHeader. A nil map of headers is `none`; the decimal text of a
-- number is a parameter.
mod Tests
use Prim.Native.String.{◌++◌}
use pin_go.Base.{
  String, str_eq, Bool, true, false, List, [], ◌∷◌, Option, none, some, ℤ, if◌then◌else◌,
}
use pin_go.Base.Dict.{Entries}
use pin_go.Errors.{Error}
use pin_go.Http.Headers.{Values, no_name, add, assign, value_of, headers_text}

pub record ResponseHeader : Type 0 where
  pub version : String
  pub status_code : ℤ
  pub status : String
  pub headers : Option (Entries Values)

abbrev pub or_new : Option (Entries Values) → Entries Values
or_new none = []
or_new (some h) = h

module _ (canonical : String → String) where
  unfoldable pub insert_header : ResponseHeader → String → String → ResponseHeader × Option Error
  insert_header r name value =
      if str_eq name ""
      then (r, some no_name)
      else (record r { headers = some (add canonical (or_new r.headers) name value) }, none)

  unfoldable pub set_header : ResponseHeader → String → String → ResponseHeader × Option Error
  set_header r name value =
      if str_eq name ""
      then (r, some no_name)
      else (record r { headers = some (assign canonical (or_new r.headers) name value) }, none)

  unfoldable pub get_header : ResponseHeader → String → String
  get_header r name = elim r.headers [ none ↦ "" | some h ↦ value_of canonical h name ]

-- The loop is skipped on nil headers.
unfoldable pub response_text : (List String → List String) → (ℤ → String) → ResponseHeader → String
unfolding headers_text
response_text sorted decimal r =
    r.version
    ++ (" "
        ++ (decimal r.status_code
            ++ (" " ++ (r.status ++ ("\r\n" ++ headers_text sorted (or_new r.headers))))))
