-- ===== src/Cache/Keys/Collisions.antt =====
-- pkg/cache/cache.go, type CacheKey: keys with one text.
use Prim.Native.String.{◌++◌}
use text.Mathlib.TextLemmas.{append_assoc}
use pin_go.Base.{
  String, str_eq, eq_iff, ◌≡◌, refl, sym, ap, ◌∙◌, Bool-cases, inl, inr, [], ◌∷◌, none, some, arith,
  if◌then◌else◌,
}
use pin_go.Base.Dict.{Entries, RangeOrder, Distinct, lookup}
use pin_go.Cache.Keys.{new_cache_key, written_headers, written, cache_key_text}

-- Dictionaries without an entry, and with one.
bare : (m : Entries String) → ((k : String) → lookup k m ≡ none) → m ≡ []
unfolding lookup
bare [] h = refl
bare ((i, w) ∷ m) h = absurd (ground (arith, h i, (eq_iff i i).1 refl))

alone :
    (name value : String) (m : Entries String)
    → Distinct m
    → ((k : String) → lookup k m ≡ lookup k ((name, value) ∷ []))
    → m ≡ (name, value) ∷ []
unfolding lookup
alone name value [] d h = absurd (ground (arith, h name, (eq_iff name name).1 refl))
alone name value ((i, w) ∷ m) d h =
    let first : (if str_eq name i then some value else none) ≡ some w =
      sym (h i) ∙ rw ((eq_iff i i).1 refl) refl in
    elim (Bool-cases (str_eq name i)) [
      | inl t ↦
          let same : name ≡ i = (eq_iff name i).0 t in
          let value_same : value ≡ w = ground (arith, t) in
          let rest : m ≡ [] = bare m (λ k. elim (Bool-cases (str_eq i k)) [
            | inl u ↦ sym (ap (λ x. lookup x m) ((eq_iff i k).0 u)) ∙ d.0
            | inr u ↦ ground (arith, h k, same, eq_iff i k, eq_iff name k)
          ]) in
          ap (λ p. p ∷ m) (ap (λ x. (x, w)) (sym same) ∙ ap (λ x. (name, x)) (sym value_same))
          ∙ ap (λ r. (name, value) ∷ r) rest
      | inr t ↦ absurd (ground (arith, t))
    ]

module _ (digest : String → String) where
  text_lem :
      (order : RangeOrder String) (method uri : String) (h h' : Entries String)
      → order.range h ≡ h'
      → cache_key_text digest order (new_cache_key method uri h)
        ≡ digest (method ++ (uri ++ written_headers h'))
  unfolding cache_key_text written new_cache_key
  text_lem order method uri h h' e = ap (λ x. digest (method ++ (uri ++ written_headers x))) e

  range-one :
      (order : RangeOrder String) (name value : String)
      → order.range ((name, value) ∷ []) ≡ (name, value) ∷ []
  unfolding lookup
  range-one order name value =
      alone name value _ (order.range-Distinct ((name, value) ∷ []) (refl, tt))
        (λ k. order.lookup-range k ((name, value) ∷ []))

  range-nil : (order : RangeOrder String) → order.range [] ≡ []
  unfolding lookup
  range-nil order = bare _ (λ k. order.lookup-range k [])

  moved :
      (first second : RangeOrder String) (method part uri : String) (headers : Entries String)
      → first.range headers ≡ second.range headers
      → cache_key_text digest first (new_cache_key (method ++ part) uri headers)
        ≡ cache_key_text digest second (new_cache_key method (part ++ uri) headers)
  moved first second method part uri headers same =
      let rest = written_headers (second.range headers) in
      text_lem first (method ++ part) uri headers _ same
      ∙ ap digest (
          append_assoc method part (uri ++ rest)
          ∙ ap (λ x. method ++ x) (sym (append_assoc part uri rest)))
      ∙ sym (text_lem second method (part ++ uri) headers _ refl)

  -- String writes the parts of a key to the digest without a mark between them, so different requests
  -- have one key, whatever the digest is. Each of the two calls of String has an order of its loop of
  -- its own. A beginning of the URI may as well be an end of the method, if both calls go over the
  -- headers in the same order, as they always do over one header or none; and a single header may as
  -- well be an end of the URI, in any two orders.
  pub cache_key_text-collides :
      (first second : RangeOrder String) (method part uri name value : String)
      (headers : Entries String)
      → first.range headers ≡ second.range headers
      → (cache_key_text digest first (new_cache_key (method ++ part) uri headers)
          ≡ cache_key_text digest second (new_cache_key method (part ++ uri) headers))
        × (cache_key_text digest first (new_cache_key (method ++ part) uri ((name, value) ∷ []))
            ≡ cache_key_text digest second
                (new_cache_key method (part ++ uri) ((name, value) ∷ [])))
        × (cache_key_text digest first (new_cache_key method uri ((name, value) ∷ []))
            ≡ cache_key_text digest second (new_cache_key method (uri ++ (name ++ value)) []))
  unfolding written_headers
  cache_key_text-collides first second method part uri name value headers same =
      let one = (name, value) ∷ [] in
      (
        moved first second method part uri headers same,
        moved first second method part uri one
            (range-one first name value ∙ sym (range-one second name value)),
        text_lem first method uri one _ (range-one first name value)
            ∙ ap (λ x. digest (method ++ x))
                (ap (λ x. uri ++ x) (sym (append_assoc name value ""))
                  ∙ sym (append_assoc uri (name ++ value) ""))
            ∙ sym (text_lem second method (uri ++ (name ++ value)) [] [] (range-nil second)),
      )
