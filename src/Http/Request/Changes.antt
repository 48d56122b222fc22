-- ===== src/Http/Request/Changes.antt =====
-- pkg/http/headers.go, type RequestHeader: what a history of changes leaves.
use mathlib.Core.List.{◌++◌ as ◌append◌}
use mathlib.Core.Path.{subst}
use pin_go.Base.{
  String, str_eq, ◌≡◌, refl, ap, ◌∙◌, Bool-cases, inl, inr, List, [], ◌∷◌, Option, none, some,
  if◌then◌else◌,
}
use pin_go.Base.Dict.{Entries, Distinct, lookup, insert-Distinct, delete-Distinct}
use pin_go.Http.Headers.{Values, first_value, value_of, add, assign, del}
use pin_go.Http.Headers.Values.{values, same_name, values-assign, values-add, values-del}
use pin_go.Http.Request.{
  RequestHeader, Built, built, rejected, build_request, Changed, changed, crashed, insert_header,
  set_header, get_header, remove_header, or_nothing,
}

-- A call of SetHeader, InsertHeader or RemoveHeader.
pub data Edit : Type 0 where
  sets inserts : String → String → Edit
  removes : String → Edit

abbrev after_change : Changed → Option RequestHeader
after_change (changed r error) = some r
after_change crashed = none

module _ (canonical : String → String) where
  -- `none` is a panic.
  pub step : RequestHeader → Edit → Option RequestHeader
  step r (sets name value) = after_change (set_header canonical r name value)
  step r (inserts name value) = after_change (insert_header canonical r name value)
  step r (removes name) = some (remove_header canonical r name)

  unfoldable pub run : RequestHeader → List Edit → Option RequestHeader
  unfolding step
  run r [] = some r
  run r (e ∷ es) = elim (step r e) [ none ↦ none | some r' ↦ run r' es ]

  -- The values of a name after a call that had these before: a call with the empty name is refused,
  -- and a call with another name, in any spelling, leaves them.
  abbrev pub values_after : String → Values → Edit → Values
  values_after other before (sets name value) =
      if str_eq name ""
      then before
      else if same_name canonical name other
      then value ∷ []
      else before
  values_after other before (inserts name value) =
      if str_eq name ""
      then before
      else if same_name canonical name other
      then before append (value ∷ [])
      else before
  values_after other before (removes name) = if same_name canonical name other then [] else before

  abbrev pub values_left : String → Values → List Edit → Values
  values_left other before [] = before
  values_left other before (e ∷ es) = values_left other (values_after other before e) es

  -- The request with these headers.
  abbrev with_headers : RequestHeader → Entries Values → RequestHeader
  with_headers r h = record r { headers = some h }

  -- One call on headers.
  record Steps (r : RequestHeader) (h : Entries Values) (e : Edit) : Type 0 where
    left : Entries Values
    ends : step (with_headers r h) e ≡ some (with_headers r left)
    distinct : Distinct left
    same :
        (other : String)
        → values canonical left other ≡ values_after other (values canonical h other) e

  step-Steps : (r : RequestHeader) (h : Entries Values) (e : Edit) → Distinct h → Steps r h e
  unfolding step set_header insert_header remove_header assign add del
  step-Steps r h (sets name value) d = elim (Bool-cases (str_eq name "")) [
    | inl t ↦ record { left = h; ends = rw t refl; distinct = d; same = λ other. rw t refl }
    | inr t ↦ record {
      left = assign canonical h name value;
      ends = rw t refl;
      distinct = insert-Distinct (canonical name) _ h d;
      same = λ other. rw t (values-assign canonical h name value other);
    }
  ]
  step-Steps r h (inserts name value) d = elim (Bool-cases (str_eq name "")) [
    | inl t ↦ record { left = h; ends = rw t refl; distinct = d; same = λ other. rw t refl }
    | inr t ↦ record {
      left = add canonical h name value;
      ends = rw t refl;
      distinct = insert-Distinct (canonical name) _ h d;
      same = λ other. rw t (values-add canonical h name value other);
    }
  ]
  step-Steps r h (removes name) d = record {
    left = del canonical h name;
    ends = refl;
    distinct = delete-Distinct (canonical name) h d;
    same = λ other. values-del canonical h name other d;
  }

  run-left :
      (r : RequestHeader) (h : Entries Values) (es : List Edit)
      → Distinct h
      → (h' : Entries Values) × (run (with_headers r h) es ≡ some (with_headers r h'))
        × ((other : String)
            → values canonical h' other ≡ values_left other (values canonical h other) es)
  unfolding run
  run-left r h [] d = (h, refl, λ other. refl)
  run-left r h (e ∷ es) d =
      let s = step-Steps r h e d in
      let (h', ends, same) = run-left r s.left es s.distinct in
      (
        h',
        rw (s.ends, run) ends,
        λ other. same other ∙ ap (λ vs. values_left other vs es) (s.same other),
      )

  abbrev Fresh : Built → Type 0
  Fresh (built r) = r ≡ with_headers r []
  Fresh (rejected e) = Unit {0}

  build_request-Fresh :
      (method uri : String) (version : Option String) → Fresh (build_request method uri version)
  unfolding build_request
  build_request-Fresh method uri version = elim (Bool-cases (str_eq method "")) [
    | inl t ↦ rw t tt
    | inr t ↦ rw t (elim (Bool-cases (str_eq uri "")) [ inl u ↦ rw u tt | inr u ↦ rw u refl ])
  ]

  fresh :
      (method uri : String) (version : Option String) (r : RequestHeader)
      → build_request method uri version ≡ built r
      → r ≡ with_headers r []
  fresh method uri version r e = subst Fresh e (build_request-Fresh method uri version)

  -- No history of SetHeader, InsertHeader and RemoveHeader on a request that BuildRequest has made
  -- panics, and none changes the method, the URI or the version. Each name, in any spelling, has the
  -- values that an account of the calls for it alone gives, and GetHeader answers with the first.
  pub run-build_request :
      (method uri : String) (version : Option String) (r : RequestHeader) (es : List Edit)
      → build_request method uri version ≡ built r
      → (r' : RequestHeader) × (run r es ≡ some r')
        × (r'.method ≡ r.method)
        × (r'.uri ≡ r.uri)
        × (r'.version ≡ r.version)
        × ((other : String)
            → (values canonical (or_nothing r'.headers) other ≡ values_left other [] es)
              × (get_header canonical r' other ≡ first_value (values_left other [] es)))
  unfolding get_header value_of lookup
  run-build_request method uri version r es e =
      let (h', ends, same) = run-left r [] es tt in
      (
        with_headers r h',
        ap (λ x. run x es) (fresh method uri version r e) ∙ ends,
        refl,
        refl,
        refl,
        λ other. (same other, ap first_value (same other)),
      )
