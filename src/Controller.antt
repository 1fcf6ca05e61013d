-- ===== src/Controller.antt =====
-- The reconciler, internal/controller/dpfhcpbridge_controller.go.
pub mod Phase
pub mod PhaseLaws
pub mod Ready
pub mod Deletion
pub mod Reconcile
pub mod Watches
