-- ===== src/Config.antt =====
-- internal/config/validate.go: the checks of the start-up settings. A problem is known by what is
-- wrong and by the flag that it names. The network and file functions of the standard library, and
-- the loading of certificates, are outside.
pub mod Checks
pub mod DataPlane
pub mod Conditions
pub mod Accepted
pub mod Providers
use jbalance.Common.{
  ℕ, ◌*◌, Bool, true, false, not, ◌&&◌, ◌||◌, Option, none, some, List, [], ◌∷◌, ◌++◌, ℤ, pos,
  ltb_ℤ, leb_ℤ, eqb_ℤ, Text, bytes, is_empty, text_instance, ◌==◌, if◌then◌else◌, nat_eq, bool_eq,
  any,
}
use jbalance.Platform.{Platform}
use jbalance.CertPairs.{CertPair, parse_cert_pairs}
use jbalance.Dataplane.RateLimit.{f_zero}

pub data Problem : Type 0 where
  must_not_be_empty not_an_address missing_host missing_port invalid_port port_zero must_be_positive
        must_not_be_negative not_one_of not_accessible is_a_directory out_of_range set_together
        without_effect does_not_load malformed needs_certificate :
      Text → Problem

-- net.SplitHostPort, net.LookupPort of tcp, os.Stat (whether the path is a directory), and whether
-- tlsutil's LoadClientConfig, LoadServerConfig and NewCertReloader succeed.
pub record System : Type 0 where
  pub split_host_port : Text → Option (Text × Text)
  pub lookup_port : Text → Option ℕ
  pub stat : Text → Option Bool
  pub loads_client : Text → Text → Text → Bool
  pub loads_server : Text → Text → Text → Bool
  pub loads_pairs : List CertPair → Bool

-- The checks append in turn.
unfoldable pub report : List (List Problem) → List Problem
report [] = []
report (ps ∷ rest) = ps ++ report rest

-- `if bad { p.addf(...) }`
abbrev pub problem_if : Bool → Problem → List Problem
problem_if bad q = if bad then q ∷ [] else []

-- Checks that are made only under a condition.
abbrev pub only_if : Bool → List Problem → List Problem
only_if b ps = if b then ps else []

unfoldable pub check_positive : Text → ℤ → List Problem
check_positive name d = problem_if (leb_ℤ d (pos 0)) (must_be_positive name)

unfoldable pub check_non_negative : Text → ℤ → List Problem
check_non_negative name d = problem_if (ltb_ℤ d (pos 0)) (must_not_be_negative name)

unfoldable pub check_one_of : Text → Text → List Text → List Problem
check_one_of name value allowed = problem_if (not (any (λ a. value == a) allowed)) (not_one_of name)

module _ (sys : System) where
  -- What a port says of a listen address.
  abbrev pub port_problems : Text → Option ℕ → List Problem
  port_problems name none = invalid_port name ∷ []
  port_problems name (some n) = problem_if (nat_eq.same n 0) (port_zero name)

  abbrev pub listen_problems : Text → Option (Text × Text) → List Problem
  listen_problems name none = not_an_address name ∷ []
  listen_problems name (some (host, port)) =
      if is_empty port then missing_port name ∷ [] else port_problems name (sys.lookup_port port)

  unfoldable pub check_listen_addr : Text → Text → Bool → List Problem
  check_listen_addr name addr allow_empty =
      if is_empty addr
      then problem_if (not allow_empty) (must_not_be_empty name)
      else listen_problems name (sys.split_host_port addr)

  abbrev pub dial_port_problems : Text → Option ℕ → List Problem
  dial_port_problems name none = invalid_port name ∷ []
  dial_port_problems name (some n) = []

  abbrev pub dial_problems : Text → Option (Text × Text) → List Problem
  dial_problems name none = not_an_address name ∷ []
  dial_problems name (some (host, port)) =
      problem_if (is_empty host) (missing_host name)
      ++ (if is_empty port
          then missing_port name ∷ []
          else dial_port_problems name (sys.lookup_port port))

  unfoldable pub check_dial_addr : Text → Text → List Problem
  check_dial_addr name addr =
      if is_empty addr
      then must_not_be_empty name ∷ []
      else dial_problems name (sys.split_host_port addr)

  abbrev pub stat_problems : Text → Option Bool → List Problem
  stat_problems name none = not_accessible name ∷ []
  stat_problems name (some directory) = problem_if directory (is_a_directory name)

  unfoldable pub check_file_exists : Text → Text → List Problem
  check_file_exists name path = if is_empty path then [] else stat_problems name (sys.stat path)

pub record ControlPlaneConfig : Type 0 where
  pub grpc_addr : Text
  pub admin_addr : Text
  pub admin_disable : Bool
  pub reconcile_interval : ℤ
  pub tls_cert : Text
  pub tls_key : Text
  pub tls_client_ca : Text
  pub provider : Text
  pub fake_base_port : ℤ
  pub scaling_interval : ℤ
  pub simulate_scaling : Bool
  pub azure_subscription_id : Text
  pub azure_resource_group : Text
  pub azure_vmss_groups : Text
  pub k8s_groups : Text
  pub k8s_kubeconfig : Text
  pub file_provider_path : Text
  pub store_backend : Text
  pub store_dsn : Text
  pub admin_tls_cert : Text
  pub admin_tls_key : Text
  pub log_level : Text
  pub log_format : Text

abbrev pub levels : List Text
levels = bytes "debug" ∷ bytes "info" ∷ bytes "warn" ∷ bytes "error" ∷ []

abbrev pub formats : List Text
formats = bytes "json" ∷ bytes "text" ∷ []

module _ ⦃p : Platform⦄ where
  -- `strings.TrimSpace(s) == ""`
  abbrev pub blank : Text → Bool
  blank s = is_empty (p.trim_space s)

  -- The switch over the provider.
  unfoldable pub check_provider : ControlPlaneConfig → List Problem
  unfolding check_positive
  check_provider c =
      if c.provider == bytes "fake"
      then report (
          problem_if (ltb_ℤ c.fake_base_port (pos 1) || ltb_ℤ (pos 65535) c.fake_base_port)
            (out_of_range (bytes "-fake-base-port"))
          ∷ only_if c.simulate_scaling
              (check_positive (bytes "-scaling-interval") c.scaling_interval)
          ∷ [])
      else if c.provider == bytes "azure-vmss"
      then report (
          problem_if (blank c.azure_subscription_id)
            (must_not_be_empty (bytes "-azure-subscription-id"))
          ∷ problem_if (blank c.azure_resource_group)
              (must_not_be_empty (bytes "-azure-resource-group"))
          ∷ problem_if (blank c.azure_vmss_groups) (must_not_be_empty (bytes "-azure-vmss-groups"))
          ∷ [])
      else if c.provider == bytes "kubernetes"
      then problem_if (blank c.k8s_groups) (must_not_be_empty (bytes "-k8s-groups"))
      else if c.provider == bytes "file"
      then problem_if (blank c.file_provider_path) (must_not_be_empty (bytes "-file-provider-path"))
      else []

  abbrev pub control_plane_checks : System → ControlPlaneConfig → List (List Problem)
  control_plane_checks sys c =
      check_one_of (bytes "-provider") c.provider
        (bytes "fake" ∷ bytes "file" ∷ bytes "azure-vmss" ∷ bytes "kubernetes" ∷ [])
      ∷ only_if (not (is_empty c.store_backend)) (
          check_one_of (bytes "-store-backend") c.store_backend
            (bytes "file" ∷ bytes "postgres" ∷ []))
      ∷ problem_if (c.store_backend == bytes "postgres" && blank c.store_dsn)
          (must_not_be_empty (bytes "-store-dsn"))
      ∷ check_one_of (bytes "-log-level") c.log_level levels
      ∷ check_one_of (bytes "-log-format") c.log_format formats
      ∷ check_listen_addr sys (bytes "-grpc-addr") c.grpc_addr false
      ∷ only_if (not c.admin_disable)
          (check_listen_addr sys (bytes "-admin-addr") c.admin_addr false)
      ∷ check_positive (bytes "-reconcile-interval") c.reconcile_interval
      ∷ problem_if (not (is_empty c.tls_cert == is_empty c.tls_key))
          (set_together (bytes "-tls-cert"))
      ∷ problem_if (not (is_empty c.tls_client_ca) && is_empty c.tls_cert)
          (needs_certificate (bytes "-tls-client-ca"))
      ∷ check_file_exists sys (bytes "-tls-cert") c.tls_cert
      ∷ check_file_exists sys (bytes "-tls-key") c.tls_key
      ∷ check_file_exists sys (bytes "-tls-client-ca") c.tls_client_ca
      ∷ problem_if
          (not (is_empty c.tls_cert)
            && not (is_empty c.tls_key)
            && not (sys.loads_server c.tls_cert c.tls_key c.tls_client_ca))
          (does_not_load (bytes "-tls-cert"))
      ∷ problem_if (not (is_empty c.admin_tls_cert == is_empty c.admin_tls_key))
          (set_together (bytes "-admin-tls-cert"))
      ∷ check_file_exists sys (bytes "-admin-tls-cert") c.admin_tls_cert
      ∷ check_file_exists sys (bytes "-admin-tls-key") c.admin_tls_key
      ∷ check_provider c
      ∷ []

  -- ValidateControlPlane: the problems, none of which is a nil error.
  unfoldable pub validate_control_plane : System → ControlPlaneConfig → List Problem
  unfolding report
  validate_control_plane sys c = report (control_plane_checks sys c)
