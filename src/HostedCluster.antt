-- ===== src/HostedCluster.antt =====
-- The HostedCluster life cycle, internal/controller/hostedcluster.
pub mod Held
pub mod SecretManager
pub mod Publishing
pub mod Manager
pub mod NodePools
pub mod StatusSync
pub mod Cleanup
pub mod Creations
pub mod Copies
pub mod Services
pub mod KeyAndPool
pub mod Established
pub mod Lasting
pub mod Again
pub mod Once
pub mod Addresses
