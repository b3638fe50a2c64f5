-- ===== src/Api.antt =====
-- api/v1alpha1: the types of the two custom resources.
pub mod Service
pub mod Config
pub mod DeepCopy
