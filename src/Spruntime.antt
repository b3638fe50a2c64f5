-- ===== src/Spruntime.antt =====
-- pkg/spruntime: the generic reconcilers.
pub mod Api
pub mod Status
pub mod Access
pub mod Reconciler
pub mod ConfigEvents
pub mod System
pub mod Builders
pub mod Setup
