-- ===== src/Programs/Separation.antt =====
-- cmd/pingora/main.go and internal/examples/examples.go, the loops of the echo handlers: where the
-- commas stand.
use Prim.Native.String.{◌++◌}
use mathlib.Core.List.{◌++◌ as ◌append◌}
use Prim.Native.String.append
use text.Mathlib.TextLemmas.{append_assoc}
use pin_go.Base.{String, true, false, List, [], ◌∷◌, map, ◌≡◌, refl, ap, sym, ◌∙◌}
use pin_go.Base.Dict.{Entries}
use pin_go.Http.Headers.{Values}
use pin_go.Programs.{header_line, echo_values, echo_headers}

-- The texts, each but the first with a comma before it.
pub each_after : List String → String
each_after [] = ""
each_after (t ∷ ts) = "," ++ (t ++ each_after ts)

abbrev pub separated : List String → String
separated [] = ""
separated (t ∷ ts) = t ++ each_after ts

-- The lines of all values of all names, in the order of the loops.
pub all_lines : Entries Values → List String
all_lines [] = []
all_lines ((key, vs) ∷ header) = map (header_line key) vs append all_lines header

nil-append : (t : String) → "" ++ t ≡ t
nil-append t = append.nil t

each_after-append :
    (ts us : List String) → each_after (ts append us) ≡ each_after ts ++ each_after us
unfolding each_after
each_after-append [] us = sym (nil-append (each_after us))
each_after-append (t ∷ ts) us =
    ap (λ x. "," ++ (t ++ x)) (each_after-append ts us)
    ∙ ap (λ x. "," ++ x) (sym (append_assoc t (each_after ts) (each_after us)))
    ∙ sym (append_assoc "," (t ++ each_after ts) (each_after us))

-- The values that are not the first to be written.
echo_values-later :
    (key : String) (vs : Values)
    → echo_values key vs false ≡ (each_after (map (header_line key) vs), false)
unfolding echo_values each_after
echo_values-later key [] = refl
echo_values-later key (v ∷ vs) =
    ap (λ p. ("," ++ (header_line key v ++ p.0), p.1)) (echo_values-later key vs)

echo_headers-later : (h : Entries Values) → echo_headers h false ≡ each_after (all_lines h)
unfolding echo_headers all_lines each_after
echo_headers-later [] = refl
echo_headers-later ((key, vs) ∷ h) =
    rw (echo_values-later key vs, echo_headers-later h)
      (sym (each_after-append (map (header_line key) vs) (all_lines h)))

-- The part of the echoed body with the header is the lines of all values in the order of the loops,
-- with a comma between each two and none before the first or after the last, also where names
-- without a value stand among the others.
pub echo_headers-separated : (h : Entries Values) → echo_headers h true ≡ separated (all_lines h)
unfolding echo_headers echo_values all_lines each_after
echo_headers-separated [] = refl
echo_headers-separated ((key, []) ∷ h) = nil-append (echo_headers h true) ∙ echo_headers-separated h
echo_headers-separated ((key, v ∷ vs) ∷ h) =
    rw (echo_values-later key vs, echo_headers-later h)
      (ap (λ x. x ++ each_after (all_lines h)) (nil-append _)
        ∙ append_assoc (header_line key v) (each_after (map (header_line key) vs)) _
        ∙ ap (λ x. header_line key v ++ x)
            (sym (each_after-append (map (header_line key) vs) (all_lines h))))
