-- ===== src/Config/Providers.antt =====
-- The settings that ValidateControlPlane finds nothing wrong with.
use mathlib.Core.List.{Memᴰ}
use jbalance.Common.{
  ◌≡◌, ◌≢◌, ◌≤ℤ◌, ◌↔◌, true, false, not, List, [], ◌∷◌, pos, ◌<ℤ◌, bytes, is_empty, text_eq,
  text_instance, bool_eq, ◌==◌, if◌then◌else◌,
}
use jbalance.Platform.{Platform}
use jbalance.Config.{System, ControlPlaneConfig, levels, formats}
use jbalance.Config.Checks.{Holds}
use jbalance.Config.Accepted.{IsListenAddr, IsFile}

module _ ⦃p : Platform⦄ (c : ControlPlaneConfig) where
  abbrev pub fake_needs : List (Type 0)
  fake_needs =
      ((pos 1 ≤ℤ c.fake_base_port) × (c.fake_base_port ≤ℤ pos 65535))
      ∷ (c.simulate_scaling ≡ true → pos 0 <ℤ c.scaling_interval)
      ∷ []

  abbrev pub azure_needs : List (Type 0)
  azure_needs =
      (p.trim_space c.azure_subscription_id ≢ [])
      ∷ (p.trim_space c.azure_resource_group ≢ [])
      ∷ (p.trim_space c.azure_vmss_groups ≢ [])
      ∷ []

  -- What the chosen provider needs.
  abbrev pub ProviderReady : Type 0
  ProviderReady =
      if text_eq c.provider (bytes "fake")
      then Holds fake_needs
      else if text_eq c.provider (bytes "azure-vmss")
      then Holds azure_needs
      else if text_eq c.provider (bytes "kubernetes")
      then p.trim_space c.k8s_groups ≢ []
      else if text_eq c.provider (bytes "file")
      then p.trim_space c.file_provider_path ≢ []
      else Unit {0}

  module _ (sys : System) where
    abbrev pub accepted_control_plane : List (Type 0)
    accepted_control_plane =
        Memᴰ c.provider (bytes "fake" ∷ bytes "file" ∷ bytes "azure-vmss" ∷ bytes "kubernetes" ∷ [])
        ∷ (not (is_empty c.store_backend) ≡ true
            → Memᴰ c.store_backend (bytes "file" ∷ bytes "postgres" ∷ []))
        ∷ ((c.store_backend == bytes "postgres") ≡ true → p.trim_space c.store_dsn ≢ [])
        ∷ Memᴰ c.log_level levels
        ∷ Memᴰ c.log_format formats
        ∷ IsListenAddr sys c.grpc_addr false
        ∷ (not c.admin_disable ≡ true → IsListenAddr sys c.admin_addr false)
        ∷ (pos 0 <ℤ c.reconcile_interval)
        ∷ ((c.tls_cert ≡ []) ↔ (c.tls_key ≡ []))
        ∷ (c.tls_client_ca ≢ [] → c.tls_cert ≢ [])
        ∷ IsFile sys c.tls_cert
        ∷ IsFile sys c.tls_key
        ∷ IsFile sys c.tls_client_ca
        ∷ (c.tls_cert ≢ []
            → c.tls_key ≢ []
            → sys.loads_server c.tls_cert c.tls_key c.tls_client_ca ≡ true)
        ∷ ((c.admin_tls_cert ≡ []) ↔ (c.admin_tls_key ≡ []))
        ∷ IsFile sys c.admin_tls_cert
        ∷ IsFile sys c.admin_tls_key
        ∷ ProviderReady
        ∷ []
