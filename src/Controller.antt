-- ===== src/Controller.antt =====
-- internal/controller/otelcollectorservice_controller.go
pub mod Resolve
pub mod Reconciler
pub mod Deploy
pub mod Steps
pub mod Success
pub mod Outcome
pub mod Apart
pub mod Removal
pub mod Provider
pub mod Finalized
pub mod Served
pub mod Returns
pub mod Stable
pub mod Ending
