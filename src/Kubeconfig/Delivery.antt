-- ===== src/Kubeconfig/Delivery.antt =====
-- The injection as a whole against a server that stores what it accepts.
pub mod Steps
pub mod Reads
pub mod Scenarios
pub mod Readiness
pub mod Converges
pub mod Idle
pub mod Reported
pub mod Succeeds
pub mod Stuck
