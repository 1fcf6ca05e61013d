-- ===== src/Types.antt =====
-- The API types of api/v1alpha1/dpfhcpbridge_types.go, and the fields that the operator reads and
-- writes of the objects of other groups: Secret, ConfigMap, Node, DPUCluster, HostedCluster and
-- NodePool. A Go struct is a record, a pointer or an optional field an `Option`, a map a list of
-- entries, a time a number with 0 for the zero time.
pub mod Bridge
pub mod Objects
pub mod Conditions
unfoldable pub use Bridge.*
pub use Objects.*
pub use Conditions.*
