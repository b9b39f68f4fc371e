-- ===== src/Config/DataPlane.antt =====
-- internal/config/validate.go: ValidateDataPlane, in the sections of its checks.
use jbalance.Common.{
  Bool, true, false, not, ◌&&◌, ◌||◌, Option, none, some, List, [], ◌∷◌, ◌++◌, ℤ, pos, ltb_ℤ, eqb_ℤ,
  Text, bytes, is_empty, text_instance, ◌==◌, if◌then◌else◌, bool_eq,
}
use jbalance.Platform.{Platform}
use jbalance.CertPairs.{CertPair, parse_cert_pairs}
use jbalance.Dataplane.RateLimit.{f_zero}
use jbalance.Config.{
  Problem, System, out_of_range, must_not_be_empty, set_together, without_effect, does_not_load,
  malformed, needs_certificate, report, problem_if, only_if, check_positive, check_non_negative,
  check_one_of, check_listen_addr, check_dial_addr, check_file_exists, blank, levels, formats,
}

pub record DataPlaneConfig (p : Platform) : Type 0 where
  pub protocol : Text
  pub listen_addr : Text
  pub control_plane_addr : Text
  pub group : Text
  pub metrics_addr : Text
  pub metrics_enabled : Bool
  pub metrics_disable : Bool
  pub ops_addr : Text
  pub health_check_mode : Text
  pub health_check_scheme : Text
  pub health_check_interval : ℤ
  pub health_check_timeout : ℤ
  pub health_check_expect_status : ℤ
  pub unhealthy_threshold : ℤ
  pub healthy_threshold : ℤ
  pub backend_protocol : Text
  pub access_log : Bool
  pub access_log_format : Text
  pub tracing_enabled : Bool
  pub tracing_protocol : Text
  pub tracing_sample_ratio : p.Float
  pub proxy_connect_timeout : ℤ
  pub proxy_response_timeout : ℤ
  pub proxy_max_retries : ℤ
  pub proxy_retry_backoff : ℤ
  pub tcp_dial_timeout : ℤ
  pub shutdown_grace : ℤ
  pub max_conns : ℤ
  pub max_header_bytes : ℤ
  pub max_body_bytes : ℤ
  pub read_header_timeout : ℤ
  pub outlier_detection : Bool
  pub outlier_consecutive_error : ℤ
  pub outlier_eject_duration : ℤ
  pub outlier_max_eject_duration : ℤ
  pub outlier_max_eject_percent : ℤ
  pub cp_tls_enable : Bool
  pub cp_tls_ca_cert : Text
  pub cp_tls_client_cert : Text
  pub cp_tls_client_key : Text
  pub http_tls_cert : Text
  pub http_tls_key : Text
  pub http_tls_certs : Text
  pub http_tls_client_ca : Text
  pub http_tls_reload_interval : ℤ
  pub log_level : Text
  pub log_format : Text

abbrev pub given : Text → Bool
given s = not (is_empty s)

module _ ⦃p : Platform⦄ where
  abbrev pub choices_checks : DataPlaneConfig p → List (List Problem)
  choices_checks c =
      check_one_of (bytes "-protocol") c.protocol (bytes "http" ∷ bytes "tcp" ∷ [])
      ∷ check_one_of (bytes "-health-check-mode") c.health_check_mode
          (bytes "tcp" ∷ bytes "http" ∷ [])
      ∷ check_one_of (bytes "-health-check-scheme") c.health_check_scheme
          (bytes "http" ∷ bytes "https" ∷ [])
      ∷ check_one_of (bytes "-backend-protocol") c.backend_protocol
          (bytes "http1" ∷ bytes "h2c" ∷ [])
      ∷ check_one_of (bytes "-access-log-format") c.access_log_format formats
      ∷ only_if c.tracing_enabled (
          check_one_of (bytes "-tracing-protocol") c.tracing_protocol
            (bytes "grpc" ∷ bytes "http" ∷ []))
      ∷ problem_if
          (c.tracing_enabled
            && (p.f_lt c.tracing_sample_ratio f_zero
                || p.f_lt (p.f_int (pos 1)) c.tracing_sample_ratio))
          (out_of_range (bytes "-tracing-sample-ratio"))
      ∷ check_one_of (bytes "-log-level") c.log_level levels
      ∷ check_one_of (bytes "-log-format") c.log_format formats
      ∷ problem_if (blank c.group) (must_not_be_empty (bytes "-group"))
      ∷ []

  unfoldable pub check_choices : DataPlaneConfig p → List Problem
  unfolding report
  check_choices c = report (choices_checks c)

  abbrev pub addresses_checks : System → DataPlaneConfig p → List (List Problem)
  addresses_checks sys c =
      check_listen_addr sys (bytes "-listen-addr") c.listen_addr false
      ∷ check_dial_addr sys (bytes "-control-plane-addr") c.control_plane_addr
      ∷ check_listen_addr sys (bytes "-metrics-addr") c.metrics_addr false
      ∷ check_listen_addr sys (bytes "-ops-addr") c.ops_addr true
      ∷ []

  unfoldable pub check_addresses : System → DataPlaneConfig p → List Problem
  unfolding report
  check_addresses sys c = report (addresses_checks sys c)

  -- checkPositiveInt and checkNonNegativeInt test as their namesakes on durations.
  abbrev pub limits_checks : DataPlaneConfig p → List (List Problem)
  limits_checks c =
      check_positive (bytes "-health-check-interval") c.health_check_interval
      ∷ check_positive (bytes "-health-check-timeout") c.health_check_timeout
      ∷ check_positive (bytes "-unhealthy-threshold") c.unhealthy_threshold
      ∷ check_positive (bytes "-healthy-threshold") c.healthy_threshold
      ∷ problem_if
          (not (eqb_ℤ c.health_check_expect_status (pos 0))
            && (ltb_ℤ c.health_check_expect_status (pos 100)
                || ltb_ℤ (pos 599) c.health_check_expect_status))
          (out_of_range (bytes "-health-check-expect-status"))
      ∷ check_positive (bytes "-proxy-connect-timeout") c.proxy_connect_timeout
      ∷ check_non_negative (bytes "-proxy-response-timeout") c.proxy_response_timeout
      ∷ check_non_negative (bytes "-proxy-max-retries") c.proxy_max_retries
      ∷ check_non_negative (bytes "-proxy-retry-backoff") c.proxy_retry_backoff
      ∷ check_positive (bytes "-tcp-dial-timeout") c.tcp_dial_timeout
      ∷ check_non_negative (bytes "-shutdown-grace") c.shutdown_grace
      ∷ check_non_negative (bytes "-max-conns") c.max_conns
      ∷ check_positive (bytes "-max-header-bytes") c.max_header_bytes
      ∷ check_non_negative (bytes "-max-body-bytes") c.max_body_bytes
      ∷ check_positive (bytes "-read-header-timeout") c.read_header_timeout
      ∷ []

  unfoldable pub check_limits : DataPlaneConfig p → List Problem
  unfolding report
  check_limits c = report (limits_checks c)

  abbrev pub outlier_checks : DataPlaneConfig p → List (List Problem)
  outlier_checks c =
      check_positive (bytes "-outlier-consecutive-errors") c.outlier_consecutive_error
      ∷ check_positive (bytes "-outlier-eject-duration") c.outlier_eject_duration
      ∷ check_positive (bytes "-outlier-max-eject-duration") c.outlier_max_eject_duration
      ∷ problem_if
          (ltb_ℤ (pos 0) c.outlier_max_eject_duration
            && ltb_ℤ (pos 0) c.outlier_eject_duration
            && ltb_ℤ c.outlier_max_eject_duration c.outlier_eject_duration)
          (out_of_range (bytes "-outlier-max-eject-duration"))
      ∷ problem_if
          (ltb_ℤ c.outlier_max_eject_percent (pos 0) || ltb_ℤ (pos 100) c.outlier_max_eject_percent)
          (out_of_range (bytes "-outlier-max-eject-percent"))
      ∷ []

  unfoldable pub check_outlier : DataPlaneConfig p → List Problem
  unfolding report
  check_outlier c = only_if c.outlier_detection (report (outlier_checks c))

  abbrev pub client_tls_checks : System → DataPlaneConfig p → List (List Problem)
  client_tls_checks sys c =
      problem_if (not (is_empty c.cp_tls_client_cert == is_empty c.cp_tls_client_key))
        (set_together (bytes "-control-plane-tls-client-cert"))
      ∷ problem_if
          (not c.cp_tls_enable
            && (given c.cp_tls_ca_cert || given c.cp_tls_client_cert || given c.cp_tls_client_key))
          (without_effect (bytes "-control-plane-tls-ca"))
      ∷ check_file_exists sys (bytes "-control-plane-tls-ca") c.cp_tls_ca_cert
      ∷ check_file_exists sys (bytes "-control-plane-tls-client-cert") c.cp_tls_client_cert
      ∷ check_file_exists sys (bytes "-control-plane-tls-client-key") c.cp_tls_client_key
      ∷ problem_if
          (c.cp_tls_enable
            && given c.cp_tls_client_cert
            && given c.cp_tls_client_key
            && not (sys.loads_client c.cp_tls_client_cert c.cp_tls_client_key c.cp_tls_ca_cert))
          (does_not_load (bytes "-control-plane-tls-client-cert"))
      ∷ []

  unfoldable pub check_client_tls : System → DataPlaneConfig p → List Problem
  unfolding report
  check_client_tls sys c = report (client_tls_checks sys c)

  -- The pair of the two single flags, if both are set.
  abbrev pub single_pair : DataPlaneConfig p → List CertPair
  single_pair c =
      if given c.http_tls_cert && given c.http_tls_key
      then record { cert_file = c.http_tls_cert; key_file = c.http_tls_key } ∷ []
      else []

  abbrev pub no_pairs : List CertPair → Bool
  no_pairs [] = true
  no_pairs (x ∷ xs) = false

  -- What the parsed list says; the inner test for an empty list, which cannot hold, is left out.
  unfoldable pub pairs_problems : System → DataPlaneConfig p → Option (List CertPair) → List Problem
  pairs_problems sys c none = malformed (bytes "-http-tls-certs") ∷ []
  pairs_problems sys c (some pairs) =
      let every = single_pair c ++ pairs in
      if not (no_pairs every)
      then problem_if (not (sys.loads_pairs every)) (does_not_load (bytes "-http-tls-cert"))
      else problem_if (given c.http_tls_client_ca) (needs_certificate (bytes "-http-tls-client-ca"))

  abbrev pub listener_tls_checks : System → DataPlaneConfig p → List (List Problem)
  listener_tls_checks sys c =
      problem_if (not (is_empty c.http_tls_cert == is_empty c.http_tls_key))
        (set_together (bytes "-http-tls-cert"))
      ∷ check_file_exists sys (bytes "-http-tls-cert") c.http_tls_cert
      ∷ check_file_exists sys (bytes "-http-tls-key") c.http_tls_key
      ∷ check_file_exists sys (bytes "-http-tls-client-ca") c.http_tls_client_ca
      ∷ pairs_problems sys c (parse_cert_pairs c.http_tls_certs)
      ∷ []

  unfoldable pub check_listener_tls : System → DataPlaneConfig p → List Problem
  unfolding report
  check_listener_tls sys c = report (listener_tls_checks sys c)

  abbrev pub every_check : System → DataPlaneConfig p → List (List Problem)
  every_check sys c =
      check_choices c
      ∷ check_addresses sys c
      ∷ check_limits c
      ∷ check_outlier c
      ∷ check_non_negative (bytes "-http-tls-reload-interval") c.http_tls_reload_interval
      ∷ check_client_tls sys c
      ∷ check_listener_tls sys c
      ∷ []

  -- ValidateDataPlane: the problems, none of which is a nil error.
  unfoldable pub validate_data_plane : System → DataPlaneConfig p → List Problem
  unfolding report
  validate_data_plane sys c = report (every_check sys c)
