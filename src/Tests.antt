-- ===== src/Tests.antt =====
-- A concrete client, concrete conditions, and the theorems at concrete inputs.
pub mod Conditions
pub mod Fixtures
pub mod Traces
pub mod Runs
pub mod Witnesses
pub mod Server
pub mod StoreWitnesses
pub mod ProgramWitnesses
pub mod ReconcileWitnesses
pub mod ProvisionWitnesses
pub mod DeletionWitnesses
pub mod ReadyWitnesses
