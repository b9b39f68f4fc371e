-- ===== src/ControlPlane.antt =====
-- internal/controlplane: the stores of the operator's settings, and the server that publishes
-- backend sets and routes to the data planes.
pub mod Routes
pub mod Stores
pub mod Server
pub mod Reports
pub mod MetricsHistory
pub mod Views
pub mod Streams
