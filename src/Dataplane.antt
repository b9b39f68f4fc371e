-- ===== src/Dataplane.antt =====
-- internal/dataplane: the proxy and what it keeps of the control plane's configuration.
pub mod RateLimit
pub mod HealthCheck
pub mod Proxy
pub mod Router
pub mod EdgeAuth
pub mod RetryWriter
pub mod Serving
pub mod Entry
pub mod Backends
pub mod Ring
pub mod Selection
pub mod History
