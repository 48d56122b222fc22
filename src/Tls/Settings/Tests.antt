-- ===== src/Tls/Settings/Tests.antt =====
-- pkg/tls/tls.go, BuildTLSConfig, at concrete inputs.
use pin_go.Base.{str_eq, ◌≡◌, refl, [], ◌∷◌, if◌then◌else◌}
use pin_go.Errors.{new, new_with_cause}
use pin_go.Tls.Settings.{
  Constants, Files, loaded, unloaded, pooled, unparsed, unread, built, rejected, load_error,
  read_error, parse_error, base_config, new_tls_settings, intermediate_tls, modern_tls,
  enable_http2, set_ca_file, build_tls_config, new_tls_listener, refused,
}

program : Unit {0}
unfolding new_tls_settings intermediate_tls modern_tls build_tls_config new_tls_listener new
    new_with_cause
program = tt

abbrev tls : Constants
tls = record {
  version_tls12 = 12;
  version_tls13 = 13;
  no_client_cert = 0;
  aes_128_gcm_sha256 = 1;
  aes_256_gcm_sha384 = 2;
  chacha20_poly1305_sha256 = 3;
  ecdhe_ecdsa_with_aes_128_gcm_sha256 = 4;
  ecdhe_rsa_with_aes_128_gcm_sha256 = 5;
  ecdhe_ecdsa_with_aes_256_gcm_sha384 = 6;
  ecdhe_rsa_with_aes_256_gcm_sha384 = 7;
  ecdhe_ecdsa_with_chacha20_poly1305 = 8;
  ecdhe_rsa_with_chacha20_poly1305 = 9;
  x25519 = 20;
  curve_p256 = 21;
  curve_p384 = 22;
}

abbrev files : Files
files = record {
  key_pair = λ cert key. if str_eq cert "cert" then loaded 5 else unloaded "no file";
  authorities = λ f.
      if str_eq f "ca" then pooled 6 else if str_eq f "bad" then unparsed else unread "no file";
}

loads :
    build_tls_config files (modern_tls tls "cert" "key")
    ≡ built (base_config (modern_tls tls "cert" "key") 5)
unfolding program
loads = refl

offers_http2 :
    (base_config (enable_http2 (new_tls_settings tls "cert" "key")) 5).next_protos
    ≡ "h2" ∷ "http/1.1" ∷ []
unfolding program
offers_http2 = refl

wants_a_pair :
    build_tls_config files (intermediate_tls tls "other" "key") ≡ rejected (load_error "no file")
unfolding program
wants_a_pair = refl

wants_authorities :
    build_tls_config files (set_ca_file (modern_tls tls "cert" "key") "bad") ≡ rejected parse_error
unfolding program
wants_authorities = refl

no_listener :
    new_tls_listener files 7 (set_ca_file (modern_tls tls "cert" "key") "gone")
    ≡ refused (read_error "no file")
unfolding program
no_listener = refl
