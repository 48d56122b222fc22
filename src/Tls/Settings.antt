-- ===== src/Tls/Settings.antt =====
-- pkg/tls/tls.go, type TLSSettings and NewTLSListener. The constants of crypto/tls are parameters,
-- and a callback is the number that names it.
mod Tests
use pin_go.Base.{
  ℕ, String, str_eq, Bool, true, false, List, [], ◌∷◌, Option, none, some, if◌then◌else◌,
}
use pin_go.Errors.{Error, foreign, tls_error, new, new_with_cause}

-- The constants of crypto/tls that the code uses: versions, an authentication type, cipher suites
-- and curves.
pub record Constants : Type 0 where
  pub version_tls12 : ℕ
  pub version_tls13 : ℕ
  pub no_client_cert : ℕ
  pub aes_128_gcm_sha256 : ℕ
  pub aes_256_gcm_sha384 : ℕ
  pub chacha20_poly1305_sha256 : ℕ
  pub ecdhe_ecdsa_with_aes_128_gcm_sha256 : ℕ
  pub ecdhe_rsa_with_aes_128_gcm_sha256 : ℕ
  pub ecdhe_ecdsa_with_aes_256_gcm_sha384 : ℕ
  pub ecdhe_rsa_with_aes_256_gcm_sha384 : ℕ
  pub ecdhe_ecdsa_with_chacha20_poly1305 : ℕ
  pub ecdhe_rsa_with_chacha20_poly1305 : ℕ
  pub x25519 : ℕ
  pub curve_p256 : ℕ
  pub curve_p384 : ℕ

pub record TlsSettings : Type 0 where
  pub cert_file : String
  pub key_file : String
  pub ca_file : String
  pub client_auth : ℕ
  pub min_version : ℕ
  pub max_version : ℕ
  pub cipher_suites : List ℕ
  pub curve_preferences : List ℕ
  pub enable_h2 : Bool
  pub sni_callback : Option ℕ

-- The fields of a tls.Config that the code sets.
pub record Config : Type 0 where
  pub certificates : List ℕ
  pub min_version : ℕ
  pub max_version : ℕ
  pub client_auth : ℕ
  pub cipher_suites : List ℕ
  pub curve_preferences : List ℕ
  pub next_protos : List String
  pub client_cas : Option ℕ
  pub get_certificate : Option ℕ

module _ (tls : Constants) where
  unfoldable pub new_tls_settings : String → String → TlsSettings
  new_tls_settings cert_file key_file = record {
    cert_file = cert_file;
    key_file = key_file;
    ca_file = "";
    client_auth = tls.no_client_cert;
    min_version = tls.version_tls12;
    max_version = tls.version_tls13;
    cipher_suites = [];
    curve_preferences = [];
    enable_h2 = false;
    sni_callback = none;
  }

  unfoldable pub intermediate_tls : String → String → TlsSettings
  intermediate_tls cert_file key_file = record {
    cert_file = cert_file;
    key_file = key_file;
    ca_file = "";
    client_auth = tls.no_client_cert;
    min_version = tls.version_tls12;
    max_version = tls.version_tls13;
    cipher_suites =
        tls.aes_128_gcm_sha256 ∷ tls.aes_256_gcm_sha384 ∷ tls.chacha20_poly1305_sha256
        ∷ tls.ecdhe_ecdsa_with_aes_128_gcm_sha256 ∷ tls.ecdhe_rsa_with_aes_128_gcm_sha256
        ∷ tls.ecdhe_ecdsa_with_aes_256_gcm_sha384 ∷ tls.ecdhe_rsa_with_aes_256_gcm_sha384
        ∷ tls.ecdhe_ecdsa_with_chacha20_poly1305 ∷ tls.ecdhe_rsa_with_chacha20_poly1305 ∷ [];
    curve_preferences = tls.x25519 ∷ tls.curve_p256 ∷ tls.curve_p384 ∷ [];
    enable_h2 = false;
    sni_callback = none;
  }

  unfoldable pub modern_tls : String → String → TlsSettings
  modern_tls cert_file key_file = record {
    cert_file = cert_file;
    key_file = key_file;
    ca_file = "";
    client_auth = tls.no_client_cert;
    min_version = tls.version_tls13;
    max_version = tls.version_tls13;
    cipher_suites =
        tls.aes_128_gcm_sha256 ∷ tls.aes_256_gcm_sha384 ∷ tls.chacha20_poly1305_sha256 ∷ [];
    curve_preferences = tls.x25519 ∷ tls.curve_p256 ∷ [];
    enable_h2 = false;
    sni_callback = none;
  }

abbrev pub enable_http2 : TlsSettings → TlsSettings
enable_http2 t = record t { enable_h2 = true }

abbrev pub set_client_auth : TlsSettings → ℕ → TlsSettings
set_client_auth t auth = record t { client_auth = auth }

abbrev pub set_ca_file : TlsSettings → String → TlsSettings
set_ca_file t ca_file = record t { ca_file = ca_file }

-- What LoadX509KeyPair, ReadFile with a new pool, and NewTLSListener give; `unparsed` is a file
-- from which AppendCertsFromPEM takes no certificate.
pub data Loaded : Type 0 where
  loaded : ℕ → Loaded
  unloaded : String → Loaded

pub data Pooled : Type 0 where
  pooled : ℕ → Pooled
  unparsed : Pooled
  unread : String → Pooled

pub data Built : Type 0 where
  built : Config → Built
  rejected : Error → Built

abbrev pub load_error : String → Error
load_error text = new_with_cause tls_error "failed to load certificate" (foreign text)

abbrev pub read_error : String → Error
read_error text = new_with_cause tls_error "failed to read CA file" (foreign text)

abbrev pub parse_error : Error
parse_error = new tls_error "failed to parse CA certificate"

-- The configuration before the file of authorities is read.
abbrev pub base_config : TlsSettings → ℕ → Config
base_config t cert = record {
  certificates = cert ∷ [];
  min_version = t.min_version;
  max_version = t.max_version;
  client_auth = t.client_auth;
  cipher_suites = t.cipher_suites;
  curve_preferences = t.curve_preferences;
  next_protos = if t.enable_h2 then "h2" ∷ "http/1.1" ∷ [] else "http/1.1" ∷ [];
  client_cas = none;
  get_certificate = none;
}

abbrev pub with_callback : TlsSettings → Config → Config
with_callback t c = record c { get_certificate = t.sni_callback }

pub with_pool : TlsSettings → Config → Pooled → Built
with_pool t c (unread text) = rejected (read_error text)
with_pool t c unparsed = rejected parse_error
with_pool t c (pooled p) = built (with_callback t (record c { client_cas = some p }))

-- The environment: a key pair by its files, and a pool by its file.
pub record Files : Type 0 where
  pub key_pair : String → String → Loaded
  pub authorities : String → Pooled

module _ (files : Files) where
  pub with_certificate : TlsSettings → Loaded → Built
  unfolding with_pool
  with_certificate t (unloaded text) = rejected (load_error text)
  with_certificate t (loaded cert) =
      if str_eq t.ca_file ""
      then built (with_callback t (base_config t cert))
      else with_pool t (base_config t cert) (files.authorities t.ca_file)

  unfoldable pub build_tls_config : TlsSettings → Built
  unfolding with_certificate
  build_tls_config t = with_certificate t (files.key_pair t.cert_file t.key_file)

-- The inner listener and the configuration.
pub record TlsListener : Type 0 where
  pub listener : ℕ
  pub config : Config

pub data Opened : Type 0 where
  opened : TlsListener → Opened
  refused : Error → Opened

pub listen_with : ℕ → Built → Opened
listen_with listener (rejected e) = refused e
listen_with listener (built config) = opened (record { listener = listener; config = config })

unfoldable pub new_tls_listener : Files → ℕ → TlsSettings → Opened
unfolding listen_with
new_tls_listener files listener settings = listen_with listener (build_tls_config files settings)
