-- ===== src/Entry.antt =====
-- cmd/service-provider-otel-collector/main.go
pub mod Permissions
pub mod Options
pub mod Schemes
pub mod Program
pub mod Clusters
