-- ===== src/K8s.antt =====
-- computing/docker/k8s_service.go, the service that calls Kubernetes through client-go, and
-- computing/docker/random.go.
pub mod Version
pub mod Random
pub mod Client
pub mod Objects
pub mod Labels
pub mod Queries
pub mod Passed
pub mod Setup
