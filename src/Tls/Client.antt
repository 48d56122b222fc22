-- ===== src/Tls/Client.antt =====
-- pkg/tls/tls.go, NewTLSClient: the fields that it sets. A pool of roots and a certificate are the
-- numbers that name them.
use pin_go.Base.{
  ℕ, String, Bool, false, List, [], Option, none, some, ℤ, pos, ◌*ℤ◌, Duration, second,
}
use pin_go.Tls.Settings.{Constants}

pub record TlsClientConfig : Type 0 where
  pub insecure_skip_verify : Bool
  pub server_name : String
  pub root_cas : Option ℕ
  pub client_certificates : List ℕ
  pub min_version : ℕ
  pub max_version : ℕ

-- The tls.Config, the http.Transport with its Dialer, and the http.Client.
pub record ClientTlsConfig : Type 0 where
  pub insecure_skip_verify : Bool
  pub server_name : String
  pub root_cas : Option ℕ
  pub certificates : List ℕ
  pub min_version : ℕ
  pub max_version : ℕ

pub record HttpClient : Type 0 where
  pub tls_client_config : ClientTlsConfig
  pub dial_timeout : Duration
  pub keep_alive : Duration
  pub max_idle_conns : ℤ
  pub idle_conn_timeout : Duration
  pub tls_handshake_timeout : Duration
  pub timeout : Duration

pub record TlsClient : Type 0 where
  pub config : ClientTlsConfig
  pub client : HttpClient

abbrev pub or_default_client : Constants → Option TlsClientConfig → TlsClientConfig
or_default_client tls (some c) = c
or_default_client tls none = record {
  insecure_skip_verify = false;
  server_name = "";
  root_cas = none;
  client_certificates = [];
  min_version = tls.version_tls12;
  max_version = tls.version_tls13;
}

abbrev pub client_tls_config : TlsClientConfig → ClientTlsConfig
client_tls_config c = record {
  insecure_skip_verify = c.insecure_skip_verify;
  server_name = c.server_name;
  root_cas = c.root_cas;
  certificates = c.client_certificates;
  min_version = c.min_version;
  max_version = c.max_version;
}

abbrev pub client_over : ClientTlsConfig → TlsClient
client_over config = record {
  config = config;
  client = record {
    tls_client_config = config;
    dial_timeout = pos 10 *ℤ second;
    keep_alive = pos 30 *ℤ second;
    max_idle_conns = pos 100;
    idle_conn_timeout = pos 90 *ℤ second;
    tls_handshake_timeout = pos 10 *ℤ second;
    timeout = pos 30 *ℤ second;
  };
}

unfoldable pub new_tls_client : Constants → Option TlsClientConfig → TlsClient
new_tls_client tls config = client_over (client_tls_config (or_default_client tls config))

abbrev pub get_client : TlsClient → HttpClient
get_client c = c.client

abbrev pub get_config : TlsClient → ClientTlsConfig
get_config c = c.config
