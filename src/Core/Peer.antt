-- ===== src/Core/Peer.antt =====
-- pkg/core/server.go: the options of sockets and TLS, and the peers of HTTP.
use pin_go.Base.{ℕ, String, Bool, true, List, Option, none, ℤ, pos, ◌*ℤ◌, false, Duration, second}

pub record TcpKeepalive : Type 0 where
  pub idle : Duration
  pub interval : Duration
  pub count : ℤ

pub record TcpSocketOptions : Type 0 where
  pub tcp_fast_open : Option ℤ
  pub tcp_keepalive : Option TcpKeepalive
  pub reuse_port : Bool
  pub backlog : ℤ

unfoldable pub default_tcp_socket_options : TcpSocketOptions
default_tcp_socket_options = record {
  tcp_fast_open = none;
  tcp_keepalive = none;
  reuse_port = false;
  backlog = pos 128;
}

pub record TlsSettings : Type 0 where
  pub cert_file : String
  pub key_file : String
  pub enable_h2 : Bool
  pub min_version : ℕ
  pub max_version : ℕ
  pub cipher_suites : List ℕ

abbrev pub enable_http2 : TlsSettings → TlsSettings
enable_http2 t = record t { enable_h2 = true }

pub record HttpVersionPreference : Type 0 where
  pub http2 : ℤ
  pub http1 : ℤ

pub record PeerOptions : Type 0 where
  pub http_version : HttpVersionPreference
  pub timeout : Duration

pub record HttpPeer : Type 0 where
  pub addr : String
  pub tls : Bool
  pub sni : String
  pub options : PeerOptions

abbrev pub set_http_version : PeerOptions → ℤ → ℤ → PeerOptions
set_http_version o http2_pref http1_pref = record o {
  http_version = record { http2 = http2_pref; http1 = http1_pref };
}

unfoldable pub new_http_peer : String → Bool → String → HttpPeer
new_http_peer addr tls sni = record {
  addr = addr;
  tls = tls;
  sni = sni;
  options = record {
    http_version = record { http2 = pos 2; http1 = pos 1 };
    timeout = pos 30 *ℤ second;
  };
}
