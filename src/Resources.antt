-- ===== src/Resources.antt =====
-- internal/resources: the helpers that bring one kind of object in a cluster to its desired state.
pub mod Constants
pub mod Namespace
pub mod PullSecrets
pub mod ConfigHash
pub mod Prerequisites
pub mod Deployment
pub mod Service
pub mod Cleanup
