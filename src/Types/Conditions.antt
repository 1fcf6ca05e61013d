-- ===== src/Types/Conditions.antt =====
-- The condition types and reasons that api/v1alpha1/dpfhcpbridge_types.go names.
use dpf_hcp_bridge_operator.Base.{String}

abbrev pub hosted_cluster_available : String
hosted_cluster_available = "HostedClusterAvailable"

abbrev pub hosted_cluster_progressing : String
hosted_cluster_progressing = "HostedClusterProgressing"

abbrev pub hosted_cluster_degraded : String
hosted_cluster_degraded = "HostedClusterDegraded"

abbrev pub valid_release_image : String
valid_release_image = "ValidReleaseImage"

abbrev pub valid_release_info : String
valid_release_info = "ValidReleaseInfo"

abbrev pub ignition_endpoint_available : String
ignition_endpoint_available = "IgnitionEndpointAvailable"

abbrev pub ignition_server_valid_release_info : String
ignition_server_valid_release_info = "IgnitionServerValidReleaseInfo"

abbrev pub ready_condition : String
ready_condition = "Ready"

abbrev pub kubeconfig_injected : String
kubeconfig_injected = "KubeConfigInjected"

abbrev pub secrets_valid : String
secrets_valid = "SecretsValid"

abbrev pub bluefield_image_resolved : String
bluefield_image_resolved = "BlueFieldImageResolved"

abbrev pub dpu_cluster_missing : String
dpu_cluster_missing = "DPUClusterMissing"

abbrev pub cluster_type_valid : String
cluster_type_valid = "ClusterTypeValid"

abbrev pub dpu_cluster_in_use : String
dpu_cluster_in_use = "DPUClusterInUse"

abbrev pub reason_all_components_operational : String
reason_all_components_operational = "AllComponentsOperational"

abbrev pub reason_hosted_cluster_not_ready : String
reason_hosted_cluster_not_ready = "HostedClusterNotReady"

abbrev pub reason_kubeconfig_not_injected : String
reason_kubeconfig_not_injected = "KubeConfigNotInjected"

abbrev pub reason_kubeconfig_injected : String
reason_kubeconfig_injected = "Injected"

abbrev pub reason_kubeconfig_pending : String
reason_kubeconfig_pending = "KubeconfigPending"

abbrev pub reason_kubeconfig_injection_failed : String
reason_kubeconfig_injection_failed = "InjectionFailed"
