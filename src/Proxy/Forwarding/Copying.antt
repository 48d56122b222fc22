-- ===== src/Proxy/Forwarding/Copying.antt =====
-- pkg/proxy/proxy.go, copyHeaders and the headers of the new request: the values of a name.
use mathlib.Core.List.{◌++◌ as ◌append◌, append-nil, append_assoc}
use pin_go.Base.{
  String, str_eq, eq_iff, eq_refl, ◌≡◌, refl, sym, ap, ◌∙◌, Bool, true, [], ◌∷◌, none, some,
  Bool-cases, inl, inr, if◌then◌else◌,
}
use pin_go.Base.Dict.{Entries, lookup, Distinct}
use pin_go.Http.Headers.{Values, or_empty, add, assign}
use pin_go.Http.Headers.Values.{values, same_name, values-add, values-assign}
use pin_go.Proxy.Forwarding.{
  Network, Request, add_all, copy_entries, copy_headers, forwarded_header, get_client_ip,
  get_scheme,
}

-- Every name of the map is in its canonical form.
abbrev pub Canonical : Network → Entries Values → Type 0
Canonical net h = (k : String) (vs : Values) → lookup k h ≡ some vs → net.canonical k ≡ k

module _ (net : Network) where
  values-add_all :
      (dst : Entries Values) (key name : String) (vs : Values)
      → values net.canonical (add_all net dst key vs) name ≡ (
          if same_name net.canonical key name
          then values net.canonical dst name append vs
          else values net.canonical dst name)
  unfolding add_all
  values-add_all dst key name [] = elim (Bool-cases (same_name net.canonical key name)) [
    | inl t ↦ rw t (sym (append-nil (values net.canonical dst name)))
    | inr t ↦ rw t refl
  ]
  values-add_all dst key name (v ∷ vs) =
      let dst' = add net.canonical dst key v in
      let rest = values-add_all dst' key name vs in
      let one = values-add net.canonical dst key v name in
      elim (Bool-cases (same_name net.canonical key name)) [
        | inl t ↦
            let rest' : values net.canonical (add_all net dst' key vs) name
                ≡ values net.canonical dst' name append vs =
              rw t at rest in
            let one' : values net.canonical dst' name
                ≡ values net.canonical dst name append (v ∷ []) =
              rw t at one in
            rw t (
              rest'
              ∙ ap (λ x. x append vs) one'
              ∙ append_assoc (values net.canonical dst name) (v ∷ []) vs)
        | inr t ↦
            let rest' : values net.canonical (add_all net dst' key vs) name
                ≡ values net.canonical dst' name =
              rw t at rest in
            let one' : values net.canonical dst' name ≡ values net.canonical dst name =
              rw t at one in
            rw t (rest' ∙ one')
      ]

  Canonical-tail :
      (key : String) (vs : Values) (m : Entries Values)
      → Canonical net ((key, vs) ∷ m)
      → Distinct ((key, vs) ∷ m)
      → Canonical net m
  unfolding lookup
  Canonical-tail key vs m h d k ws e = elim (Bool-cases (str_eq key k)) [
    | inl t ↦ h k vs (rw t refl)
    | inr t ↦ h k ws (rw t e)
  ]

  head_only :
      (key name : String) (m : Entries Values)
      → lookup key m ≡ none
      → str_eq key name ≡ true
      → or_empty (lookup name m) ≡ []
  head_only key name m e t = ap or_empty (ap (λ x. lookup x m) (sym ((eq_iff key name).0 t)) ∙ e)

  values-copy_entries :
      (dst m : Entries Values) (name : String)
      → Distinct m
      → Canonical net m
      → values net.canonical (copy_entries net dst m) name
        ≡ values net.canonical dst name append values net.canonical m name
  unfolding copy_entries lookup
  values-copy_entries dst [] name d h = sym (append-nil (values net.canonical dst name))
  values-copy_entries dst ((key, vs) ∷ m) name d h =
      let fixed : net.canonical key ≡ key = h key vs (rw (eq_refl key) refl) in
      let ih =
        values-copy_entries (add_all net dst key vs) m name d.1 (Canonical-tail key vs m h d) in
      let start = values net.canonical dst name in
      let behind = values net.canonical m name in
      let one = rw fixed at (values-add_all dst key name vs) in
      elim (Bool-cases (str_eq key (net.canonical name))) [
        | inl t ↦
            let one' : values net.canonical (add_all net dst key vs) name ≡ start append vs =
              rw t at one in
            let empty : behind ≡ [] = head_only key (net.canonical name) m d.0 t in
            rw t (
              ih
              ∙ ap (λ x. x append behind) one'
              ∙ ap (λ x. (start append vs) append x) empty
              ∙ append-nil (start append vs))
        | inr t ↦
            let one' : values net.canonical (add_all net dst key vs) name ≡ start = rw t at one in
            rw t (ih ∙ ap (λ x. x append behind) one')
      ]

  -- The values of the source stand behind those that are there.
  pub values-copy_headers :
      (dst src : Entries Values) (name : String)
      → Distinct src
      → Canonical net src
      → values net.canonical (copy_headers net dst src) name
        ≡ values net.canonical dst name append values net.canonical src name
  unfolding copy_headers
  values-copy_headers dst src name d h =
      values-copy_entries dst (net.order.range src) name (net.order.range-Distinct src d)
        (λ k vs e. h k vs (sym (net.order.lookup-range k src) ∙ e))
      ∙ ap (λ x. values net.canonical dst name append or_empty x)
          (net.order.lookup-range (net.canonical name) src)

  -- The headers of the new request: the last of the three settings of a name counts.
  pub values-forwarded_header :
      (r : Request) (name : String)
      → Distinct r.header
      → Canonical net r.header
      → let same : String → Bool = λ x. same_name net.canonical x name in
        values net.canonical (forwarded_header net r) name ≡ (
          if same "X-Forwarded-Host"
          then r.host ∷ []
          else if same "X-Forwarded-Proto"
          then get_scheme net r ∷ []
          else if same "X-Forwarded-For"
          then get_client_ip net r ∷ []
          else values net.canonical r.header name)
  unfolding forwarded_header lookup
  values-forwarded_header r name d h =
      let copied = copy_headers net [] r.header in
      let with_for = assign net.canonical copied "X-Forwarded-For" (get_client_ip net r) in
      let with_proto = assign net.canonical with_for "X-Forwarded-Proto" (get_scheme net r) in
      let same : String → Bool = λ x. same_name net.canonical x name in
      values-assign net.canonical with_proto "X-Forwarded-Host" r.host name
      ∙ ap (λ x. if same "X-Forwarded-Host" then r.host ∷ [] else x)
          (values-assign net.canonical with_for "X-Forwarded-Proto" (get_scheme net r) name
            ∙ ap (λ x. if same "X-Forwarded-Proto" then get_scheme net r ∷ [] else x)
                (values-assign net.canonical copied "X-Forwarded-For" (get_client_ip net r) name
                  ∙ ap (λ x. if same "X-Forwarded-For" then get_client_ip net r ∷ [] else x)
                      (values-copy_headers [] r.header name d h)))
