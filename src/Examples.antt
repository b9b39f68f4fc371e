-- ===== src/Examples.antt =====
-- Concrete runs of both planes.
pub mod Fleet
pub mod Balancing
pub mod Routing
pub mod Publishing
pub mod Clients
pub mod Reports
pub mod Serving
pub mod Settings
pub mod SignIn
