-- ===== src/Http/Headers.antt =====
-- pkg/http/headers.go: the http.Header of net/http that requests and responses keep, a map from
-- canonical names to lists of values. The canonical form of a name and the order of sort.Strings are
-- parameters.
pub mod Values
use Prim.Native.String.{◌++◌}
use mathlib.Core.List.{◌++◌ as ◌append◌}
use pin_go.Base.{String, List, [], ◌∷◌, map, Option, none, some}
use pin_go.Base.Dict.{Entries, lookup, insert, delete}
use pin_go.Errors.{Error, invalid_http_header, new}

abbrev pub Values : Type 0
Values = List String

abbrev pub no_name : Error
no_name = new invalid_http_header "header name cannot be empty"

abbrev pub or_empty : Option Values → Values
or_empty none = []
or_empty (some vs) = vs

abbrev pub first_value : Values → String
first_value [] = ""
first_value (v ∷ vs) = v

module _ (canonical : String → String) where
  -- `Header.Add`, `Header.Set`, `Header.Get` and `Header.Del`.
  unfoldable pub add : Entries Values → String → String → Entries Values
  add h name value =
      insert (canonical name) (or_empty (lookup (canonical name) h) append (value ∷ [])) h

  unfoldable pub assign : Entries Values → String → String → Entries Values
  assign h name value = insert (canonical name) (value ∷ []) h

  unfoldable pub value_of : Entries Values → String → String
  value_of h name = first_value (or_empty (lookup (canonical name) h))

  unfoldable pub del : Entries Values → String → Entries Values
  del h name = delete (canonical name) h

-- A line for each value of a name, before the text that follows.
value_lines : String → Values → String → String
value_lines name [] rest = rest
value_lines name (v ∷ vs) rest = name ++ (": " ++ (v ++ ("\r\n" ++ value_lines name vs rest)))

-- The loop over the sorted names.
header_lines : Entries Values → List String → String
unfolding value_lines
header_lines h [] = "\r\n"
header_lines h (k ∷ ks) = value_lines k (or_empty (lookup k h)) (header_lines h ks)

-- The lines of all headers and the empty line behind them.
unfoldable pub headers_text : (List String → List String) → Entries Values → String
unfolding header_lines
headers_text sorted h = header_lines h (sorted (map (λ p. p.0) h))
