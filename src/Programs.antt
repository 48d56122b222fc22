-- ===== src/Programs.antt =====
-- cmd/pingora/main.go and internal/examples/examples.go: what their programs share, how one ends and
-- the loops of the two echo handlers over a header. The loops are written twice in the source, word
-- for word.
mod Separation
mod Tests
use Prim.Native.String.{◌++◌}
use pin_go.Base.{String, Bool, true, false, List, [], ◌∷◌, Option, none, some, if◌then◌else◌}
use pin_go.Base.Dict.{Entries}
use pin_go.Http.Headers.{Values}
use pin_go.Errors.{Error}

-- The end of a program: log.Fatalf with a message, or a return after the server.
pub data Ended : Type 0 where
  died : String → Error → Ended
  returned : Ended

-- What follows `server.RunForever()`.
unfoldable pub after_server : Option Error → Ended
after_server none = returned
after_server (some e) = died "Server failed" e

-- The line of a value of a name.
abbrev pub header_line : String → String → String
header_line key value = "\n    \"" ++ (key ++ ("\": \"" ++ (value ++ "\"")))

-- The loops over the values of a name and over the names, with `first`.
unfoldable pub echo_values : String → Values → Bool → String × Bool
echo_values key [] first = ("", first)
echo_values key (v ∷ vs) first =
    let (rest, last) = echo_values key vs false in
    ((if first then "" else ",") ++ (header_line key v ++ rest), last)

unfoldable pub echo_headers : Entries Values → Bool → String
unfolding echo_values
echo_headers [] first = ""
echo_headers ((key, vs) ∷ header) first =
    let (text, first') = echo_values key vs first in text ++ echo_headers header first'
