-- ===== src/Config/Accepted.antt =====
-- The settings that ValidateDataPlane and ValidateControlPlane find nothing wrong with.
use mathlib.Core.List.{Memᴰ}
use jbalance.Common.{
  ◌≡◌, ◌≢◌, ◌⊎◌, ◌↔◌, Bool, true, false, not, Option, some, List, [], ◌∷◌, ◌++◌, pos, ◌<ℤ◌, ◌≤ℤ◌,
  Text, bytes, is_empty, bool_eq, if◌then◌else◌,
}
use jbalance.Platform.{Platform}
use jbalance.CertPairs.{CertPair, parse_cert_pairs}
use jbalance.Dataplane.RateLimit.{f_zero}
use jbalance.Config.{System, levels, formats}
use jbalance.Config.Checks.{Holds, Listens, Dials}
use jbalance.Config.DataPlane.{DataPlaneConfig, single_pair, no_pairs}

-- An address to listen on, and one to dial.
abbrev pub IsListenAddr : System → Text → Bool → Type 0
IsListenAddr sys addr allow_empty =
    if is_empty addr then allow_empty ≡ true else Listens sys (sys.split_host_port addr)

abbrev pub IsDialAddr : System → Text → Type 0
IsDialAddr sys addr = if is_empty addr then true ≡ false else Dials sys (sys.split_host_port addr)

-- Not set, or a file.
abbrev pub IsFile : System → Text → Type 0
IsFile sys path = if is_empty path then Unit {0} else sys.stat path ≡ some false

module _ ⦃p : Platform⦄ (c : DataPlaneConfig p) where
  abbrev pub sound_choices : List (Type 0)
  sound_choices =
      Memᴰ c.protocol (bytes "http" ∷ bytes "tcp" ∷ [])
      ∷ Memᴰ c.health_check_mode (bytes "tcp" ∷ bytes "http" ∷ [])
      ∷ Memᴰ c.health_check_scheme (bytes "http" ∷ bytes "https" ∷ [])
      ∷ Memᴰ c.backend_protocol (bytes "http1" ∷ bytes "h2c" ∷ [])
      ∷ Memᴰ c.access_log_format formats
      ∷ (c.tracing_enabled ≡ true → Memᴰ c.tracing_protocol (bytes "grpc" ∷ bytes "http" ∷ []))
      ∷ (c.tracing_enabled ≡ true
          → (p.f_lt c.tracing_sample_ratio f_zero ≡ false)
            × (p.f_lt (p.f_int (pos 1)) c.tracing_sample_ratio ≡ false))
      ∷ Memᴰ c.log_level levels
      ∷ Memᴰ c.log_format formats
      ∷ (p.trim_space c.group ≢ [])
      ∷ []

  abbrev pub sound_limits : List (Type 0)
  sound_limits =
      (pos 0 <ℤ c.health_check_interval)
      ∷ (pos 0 <ℤ c.health_check_timeout)
      ∷ (pos 0 <ℤ c.unhealthy_threshold)
      ∷ (pos 0 <ℤ c.healthy_threshold)
      ∷ ((c.health_check_expect_status ≡ pos 0)
          ⊎ ((pos 100 ≤ℤ c.health_check_expect_status) × (c.health_check_expect_status ≤ℤ pos 599)))
      ∷ (pos 0 <ℤ c.proxy_connect_timeout)
      ∷ (pos 0 ≤ℤ c.proxy_response_timeout)
      ∷ (pos 0 ≤ℤ c.proxy_max_retries)
      ∷ (pos 0 ≤ℤ c.proxy_retry_backoff)
      ∷ (pos 0 <ℤ c.tcp_dial_timeout)
      ∷ (pos 0 ≤ℤ c.shutdown_grace)
      ∷ (pos 0 ≤ℤ c.max_conns)
      ∷ (pos 0 <ℤ c.max_header_bytes)
      ∷ (pos 0 ≤ℤ c.max_body_bytes)
      ∷ (pos 0 <ℤ c.read_header_timeout)
      ∷ []

  abbrev pub sound_outlier : List (Type 0)
  sound_outlier =
      (pos 0 <ℤ c.outlier_consecutive_error)
      ∷ (pos 0 <ℤ c.outlier_eject_duration)
      ∷ (pos 0 <ℤ c.outlier_max_eject_duration)
      ∷ (pos 0 <ℤ c.outlier_max_eject_duration
          → pos 0 <ℤ c.outlier_eject_duration
          → c.outlier_eject_duration ≤ℤ c.outlier_max_eject_duration)
      ∷ ((pos 0 ≤ℤ c.outlier_max_eject_percent) × (c.outlier_max_eject_percent ≤ℤ pos 100))
      ∷ []

  module _ (sys : System) where
    abbrev pub sound_addresses : List (Type 0)
    sound_addresses =
        IsListenAddr sys c.listen_addr false
        ∷ IsDialAddr sys c.control_plane_addr
        ∷ IsListenAddr sys c.metrics_addr false
        ∷ IsListenAddr sys c.ops_addr true
        ∷ []

    abbrev pub sound_client_tls : List (Type 0)
    sound_client_tls =
        ((c.cp_tls_client_cert ≡ []) ↔ (c.cp_tls_client_key ≡ []))
        ∷ (not c.cp_tls_enable ≡ true
            → (c.cp_tls_ca_cert ≡ []) × (c.cp_tls_client_cert ≡ []) × (c.cp_tls_client_key ≡ []))
        ∷ IsFile sys c.cp_tls_ca_cert
        ∷ IsFile sys c.cp_tls_client_cert
        ∷ IsFile sys c.cp_tls_client_key
        ∷ (c.cp_tls_enable ≡ true
            → c.cp_tls_client_cert ≢ []
            → c.cp_tls_client_key ≢ []
            → sys.loads_client c.cp_tls_client_cert c.cp_tls_client_key c.cp_tls_ca_cert ≡ true)
        ∷ []

    -- The pairs load, or there are none and no client authority.
    abbrev pub PairsLoad : List CertPair → Type 0
    PairsLoad every =
        if no_pairs every then c.http_tls_client_ca ≡ [] else sys.loads_pairs every ≡ true

    abbrev pub HasPairs : Option (List CertPair) → Type 0
    HasPairs o = (pairs : List CertPair) × (o ≡ some pairs) × PairsLoad (single_pair c ++ pairs)

    abbrev pub sound_listener_tls : List (Type 0)
    sound_listener_tls =
        ((c.http_tls_cert ≡ []) ↔ (c.http_tls_key ≡ []))
        ∷ IsFile sys c.http_tls_cert
        ∷ IsFile sys c.http_tls_key
        ∷ IsFile sys c.http_tls_client_ca
        ∷ HasPairs (parse_cert_pairs c.http_tls_certs)
        ∷ []

    abbrev pub accepted : List (Type 0)
    accepted =
        Holds sound_choices
        ∷ Holds sound_addresses
        ∷ Holds sound_limits
        ∷ (c.outlier_detection ≡ true → Holds sound_outlier)
        ∷ (pos 0 ≤ℤ c.http_tls_reload_interval)
        ∷ Holds sound_client_tls
        ∷ Holds sound_listener_tls
        ∷ []
