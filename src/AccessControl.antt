-- ===== src/AccessControl.antt =====
-- The gate in front of the Kubernetes API: pkg/kubernetes/accesscontrol_round_tripper.go with the
-- validators that it runs. Each part is in a module below.
pub mod Url
pub mod Validators
pub mod RoundTripper
mod Tests
