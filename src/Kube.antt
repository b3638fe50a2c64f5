-- ===== src/Kube.antt =====
-- What the program uses of Kubernetes and its Go libraries.
pub mod Objects
pub mod Client
pub mod Laws
pub mod Changes
