-- ===== src/Tls/Certificates/Histories.antt =====
-- pkg/tls/tls.go, type CertificateManager: what a history of calls leaves.
use pin_go.Base.{
  ◌⊎◌, inl, inr, Option-cases, ℕ, String, str_eq, ◌≡◌, refl, ap, ◌∙◌, List, [], ◌∷◌, Option, none,
  some, if◌then◌else◌,
}
use pin_go.Base.Dict.{
  lookup, Distinct, lookup-insert, lookup-delete, insert-Distinct, delete-Distinct,
}
use pin_go.Tls.Settings.{loaded, unloaded}
use pin_go.Tls.Certificates.{
  CertificateManager, new_certificate_manager, add_certificate, remove_certificate, get_certificate,
  or_any, or_missing, certificate, missing, no_certificate, Event, adds, removes, step, run,
}

-- The certificate of a host after one more call: the last one loaded for it and not removed since.
abbrev pub after_event : String → Option ℕ → Event → Option ℕ
after_event host before (adds hostname (loaded cert)) =
    if str_eq hostname host then some cert else before
after_event host before (adds hostname (unloaded text)) = before
after_event host before (removes hostname) = if str_eq hostname host then none else before

pub latest : String → Option ℕ → List Event → Option ℕ
latest host before [] = before
latest host before (e ∷ es) = latest host (after_event host before e) es

step-Distinct :
    (m : CertificateManager) (e : Event)
    → Distinct m.certificates
    → Distinct (step m e).certificates
unfolding step add_certificate remove_certificate
step-Distinct m (adds hostname (loaded cert)) d = insert-Distinct hostname cert m.certificates d
step-Distinct m (adds hostname (unloaded text)) d = d
step-Distinct m (removes hostname) d = delete-Distinct hostname m.certificates d

lookup-step :
    (m : CertificateManager) (e : Event) (host : String)
    → Distinct m.certificates
    → lookup host (step m e).certificates ≡ after_event host (lookup host m.certificates) e
unfolding step add_certificate remove_certificate
lookup-step m (adds hostname (loaded cert)) host d = lookup-insert hostname host cert m.certificates
lookup-step m (adds hostname (unloaded text)) host d = refl
lookup-step m (removes hostname) host d = lookup-delete hostname host m.certificates d

lookup-run :
    (m : CertificateManager) (es : List Event) (host : String)
    → Distinct m.certificates
    → lookup host (run m es).certificates ≡ latest host (lookup host m.certificates) es
unfolding run latest
lookup-run m [] host d = refl
lookup-run m (e ∷ es) host d =
    lookup-run (step m e) es host (step-Distinct m e d)
    ∙ ap (λ x. latest host x es) (lookup-step m e host d)

get_certificate-latest :
    (es : List Event) (host : String)
    → get_certificate (run new_certificate_manager es) host
      ≡ or_any (latest host none es) (latest "*" none es)
unfolding get_certificate new_certificate_manager lookup
get_certificate-latest es host =
    let m : CertificateManager = new_certificate_manager in
    ap (λ x. or_any x (lookup "*" (run m es).certificates)) (lookup-run m es host tt)
    ∙ ap (or_any (latest host none es)) (lookup-run m es "*" tt)

-- After any history of a new manager, GetCertificate answers with the certificate loaded last for
-- the host and not removed since, whatever there is for "*"; without one for the host it answers with
-- that of "*", and with an error if both are missing.
pub get_certificate-run :
    (es : List Event) (host : String)
    → let answer = get_certificate (run new_certificate_manager es) host in
      ((cert : ℕ) × (latest host none es ≡ some cert) × (answer ≡ certificate cert))
      ⊎ ((cert : ℕ) × (latest host none es ≡ none)
          × (latest "*" none es ≡ some cert)
          × (answer ≡ certificate cert))
      ⊎ ((latest host none es ≡ none)
          × (latest "*" none es ≡ none)
          × (answer ≡ missing no_certificate))
unfolding or_any or_missing
get_certificate-run es host =
    let same = get_certificate-latest es host in
    let own =
      λ (o : Option ℕ) (e : latest host none es ≡ o). ap (λ x. or_any x (latest "*" none es)) e in
    elim (Option-cases (latest host none es)) [
      | inl e ↦ elim (Option-cases (latest "*" none es)) [
        | inl f ↦ inr (inr (e, f, same ∙ own none e ∙ ap or_missing f))
        | inr (cert, f) ↦ inr (inl (cert, e, f, same ∙ own none e ∙ ap or_missing f))
      ]
      | inr (cert, e) ↦ inl (cert, e, same ∙ own (some cert) e)
    ]
