-- ===== src/Tls/Certificates/Tests.antt =====
-- pkg/tls/tls.go, type CertificateManager, at concrete inputs.
use pin_go.Base.{◌⊎◌, some, ℕ, some, ◌≡◌, refl, List, [], ◌∷◌, none}
use pin_go.Base.Dict.{lookup, insert, delete}
use pin_go.Errors.{new}
use pin_go.Tls.Settings.{loaded, unloaded}
use pin_go.Tls.Certificates.{
  new_certificate_manager, add_certificate, remove_certificate, get_certificate, certificate,
  missing, no_certificate, list_certificates, pair, get_certificate_info, info_error, Event, adds,
  removes, step, run,
}
use pin_go.Tls.Certificates.Histories.{latest, get_certificate-run}

program : Unit {0}
unfolding new_certificate_manager add_certificate remove_certificate get_certificate
    get_certificate_info step run lookup insert delete new
program = tt

abbrev history : List Event
history =
    adds "a" (loaded 1) ∷ adds "*" (loaded 2) ∷ adds "a" (unloaded "no file") ∷ removes "b" ∷ []

own : get_certificate (run new_certificate_manager history) "a" ≡ certificate 1
unfolding program
own = refl

of_all : get_certificate (run new_certificate_manager history) "b" ≡ certificate 2
unfolding program
of_all = refl

nothing : get_certificate new_certificate_manager "b" ≡ missing no_certificate
unfolding program
nothing = refl

names : list_certificates (run new_certificate_manager history) ≡ "a" ∷ "*" ∷ []
unfolding program
names = refl

no_info :
    get_certificate_info (λ pem. pair []) (λ cert. loaded cert) (unloaded "no file")
    ≡ missing (info_error "failed to read certificate file" "no file")
unfolding program
no_info = refl

get_certificate-run_example :
    let answer = get_certificate (run new_certificate_manager history) "b" in
    ((cert : ℕ) × (latest "b" none history ≡ some cert) × (answer ≡ certificate cert))
    ⊎ ((cert : ℕ) × (latest "b" none history ≡ none)
        × (latest "*" none history ≡ some cert)
        × (answer ≡ certificate cert))
    ⊎ ((latest "b" none history ≡ none)
        × (latest "*" none history ≡ none)
        × (answer ≡ missing no_certificate))
get_certificate-run_example = get_certificate-run history "b"
