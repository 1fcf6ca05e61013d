-- ===== src/Kubeconfig.antt =====
-- Kubeconfig injection, internal/controller/kubeconfiginjection.
pub mod Injector
pub mod Watch
pub mod Cleanup
pub mod Calls
pub mod Written
pub mod Verdict
pub mod Stored
pub mod Delivery
