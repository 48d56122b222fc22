-- ===== src/Programs/Tests.antt =====
-- cmd/pingora/main.go and internal/examples/examples.go, the loops of the echo handlers, at a
-- concrete input.
use pin_go.Base.{◌≡◌, refl, [], ◌∷◌, true}
use pin_go.Programs.{echo_headers}

commas_between :
    echo_headers (("A", []) ∷ ("B", "1" ∷ "2" ∷ []) ∷ ("C", []) ∷ ("D", "3" ∷ []) ∷ []) true
    ≡ "\n    \"B\": \"1\",\n    \"B\": \"2\",\n    \"D\": \"3\""
unfolding echo_headers
commas_between = refl
