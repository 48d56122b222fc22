-- ===== src/Tls/Certificates.antt =====
-- pkg/tls/tls.go, type CertificateManager, and the functions that look at a certificate. The chain
-- of a key pair is the list of its certificates.
mod Histories
mod Tests
use pin_go.Base.{ℕ, String, List, [], ◌∷◌, map, Option, none, some}
use pin_go.Base.Dict.{Entries, lookup, insert, delete}
use pin_go.Errors.{Error, foreign, tls_error, new, new_with_cause}
use pin_go.Tls.Settings.{Loaded, loaded, unloaded, load_error}

pub record CertificateManager : Type 0 where
  pub certificates : Entries ℕ

unfoldable pub new_certificate_manager : CertificateManager
new_certificate_manager = record { certificates = [] }

-- `AddCertificate`, with what LoadX509KeyPair gives.
unfoldable pub add_certificate :
    CertificateManager → String → Loaded → CertificateManager × Option Error
add_certificate m hostname (unloaded text) = (m, some (load_error text))
add_certificate m hostname (loaded cert) =
    (record { certificates = insert hostname cert m.certificates }, none)

unfoldable pub remove_certificate : CertificateManager → String → CertificateManager
remove_certificate m hostname = record { certificates = delete hostname m.certificates }

pub data Found : Type 0 where
  certificate : ℕ → Found
  missing : Error → Found

abbrev pub no_certificate : Error
no_certificate = new tls_error "no certificate found for hostname"

or_missing : Option ℕ → Found
or_missing none = missing no_certificate
or_missing (some cert) = certificate cert

-- The second test, for the certificate of all hosts, is made where the first finds none.
pub or_any : Option ℕ → Option ℕ → Found
unfolding or_missing
or_any (some cert) any = certificate cert
or_any none any = or_missing any

unfoldable pub get_certificate : CertificateManager → String → Found
unfolding or_any
get_certificate m server_name =
    or_any (lookup server_name m.certificates) (lookup "*" m.certificates)

abbrev pub list_certificates : CertificateManager → List String
list_certificates m = map (λ p. p.0) m.certificates

unfoldable pub validate_certificate : Loaded → Option Error
validate_certificate (loaded cert) = none
validate_certificate (unloaded text) =
    some (new_with_cause tls_error "invalid certificate/key pair" (foreign text))

-- What X509KeyPair gives for the text of a file and no key, and ParseCertificate for a certificate.
pub data Pair : Type 0 where
  pair : List ℕ → Pair
  no_pair : String → Pair

abbrev pub info_error : String → String → Error
info_error message text = new_with_cause tls_error message (foreign text)

module _ (key_pair : ℕ → Pair) (parse : ℕ → Loaded) where
  info_parsed : Loaded → Found
  info_parsed (unloaded text) = missing (info_error "failed to parse X509 certificate" text)
  info_parsed (loaded cert) = certificate cert

  info_pair : Pair → Found
  unfolding info_parsed
  info_pair (no_pair text) = missing (info_error "failed to parse certificate" text)
  info_pair (pair []) = missing (new tls_error "no certificate found")
  info_pair (pair (first ∷ chain)) = info_parsed (parse first)

  -- `GetCertificateInfo`, with what ReadFile gives.
  unfoldable pub get_certificate_info : Loaded → Found
  unfolding info_pair
  get_certificate_info (unloaded text) = missing (info_error "failed to read certificate file" text)
  get_certificate_info (loaded pem) = info_pair (key_pair pem)

-- The calls that change a manager.
pub data Event : Type 0 where
  adds : String → Loaded → Event
  removes : String → Event

unfoldable pub step : CertificateManager → Event → CertificateManager
unfolding add_certificate remove_certificate
step m (adds hostname l) = (add_certificate m hostname l).0
step m (removes hostname) = remove_certificate m hostname

unfoldable pub run : CertificateManager → List Event → CertificateManager
run m [] = m
run m (e ∷ es) = run (step m e) es
