-- ===== src/App.antt =====
-- app/domain: the handlers of the application layer.
pub mod Users
pub mod Login
pub mod Dashboards
pub mod Serving
pub mod Api
pub mod Wiring
pub mod Models
