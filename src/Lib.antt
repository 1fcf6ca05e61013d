-- ===== src/Lib.antt =====
-- The DPF HCP bridge operator, cmd, internal/controller and api/v1alpha1: a Kubernetes operator that
-- provisions a HyperShift HostedCluster for a DPUCluster, follows its status, and hands its
-- kubeconfig to the DPUCluster.
--
-- The program. One reconciler (`Reconcile`) runs features in a fixed order on one DPFHCPBridge: the
-- validators of the DPUCluster and of the secrets, the BlueField image resolver, the copies of the
-- secrets with the etcd key, the HostedCluster and the NodePool, the status syncer, the kubeconfig
-- injector; then it computes the Ready condition and the phase and stores the status. A feature that
-- returns an error or a requeue ends the run. For a bridge that is being deleted it runs the cleanup
-- handlers of the finalizer manager instead, and then removes the finalizer. The features share the
-- bridge in memory: a feature reads the conditions and the phase that the ones before it have set.
--
-- How it is modelled. An action is a function on the trace of the calls made so far (Platform/Actions);
-- a call to the API server, to the clock, to the environment, or to the event recorder appends an entry
-- with its answer (Platform/Calls). The answers come from a parameter, the record `Client`
-- (Platform/World), which may depend on the trace before the call, so that nothing is assumed of the
-- server but what a theorem names. A feature is a function from the bridge in memory to an action that
-- returns the bridge and `(ctrl.Result, error)`; `and_then` is the test of the error and of the requeue
-- that `Reconcile` writes after each feature. The functions of apimachinery, controllerutil and
-- HyperShift that the operator calls are the record `Meta` (Platform/Helpers). `main` has steps of its
-- own (Program/Launch), whose answers come from the record `Runtime` for controller-runtime.
--
-- The hypotheses on these parameters. `ConditionLaws` is the documentation of `meta.SetStatusCondition`.
-- `StatusEcho` (Report/Laws): a status update that succeeds returns the object with the status that was
-- sent. `Served` (Platform/Server): the server answers for secrets and DPUClusters from a store, which
-- the accepted calls of the trace have written, and refuses only what it has not, or has already.
-- `Answers` and `Settled` (HostedCluster/Cleanup/Remains): what a server still has over several
-- attempts of a deletion; `Attempt` (Controller/Reconcile/Deletes): what it answers in one
-- reconciliation of a deletion. `NothingLeft` (Controller/Deletion/Completes): it has no object of a
-- bridge. `ControllerLaws` (HostedCluster/Lasting) is the documentation of SetControllerReference and
-- IsControlledBy; `Lasting`, in the same file: the server keeps what it has given or stored, unless the
-- operator deletes it. `Acceptable` (Controller/Reconcile/Accepted): the server has what the validations
-- ask for. `Available` (HostedCluster/StatusSync/Synced): it has a HostedCluster that reports that it is
-- available. `Ready` (Kubeconfig/Delivery/Readiness): the store holds what an injection can deliver.
-- `Leaves` (Controller/Reconcile/Readiness): the mirrored conditions are none of the validations'.
--
-- The files.
--   Base, Types, Platform   texts, lists and results; the API types of
--                           api/v1alpha1/dpfhcpbridge_types.go and the fields of foreign objects that
--                           the operator uses; actions, traces and what an action can call
--                           (Platform/Only) and end with (Platform/Ends); a server with a store
--                           (Platform/Server)
--   Report                  setting a condition, the event on a change, storing the status: the end
--                           that the handlers of the validators share; Events: a report that repeats
--   DpuCluster              internal/controller/dpucluster/validator.go
--   Secrets                 internal/controller/secrets/validator.go
--   BlueField               internal/controller/bluefield: image_resolver.go, errors.go
--   HostedCluster           internal/controller/hostedcluster: SecretManager (secrets.go), Manager
--                           (hostedcluster.go), NodePools (nodepool.go), Publishing
--                           (servicepublishing.go), StatusSync (status.go), Cleanup
--                           (cleanup_handler.go); Held, Creations, Copies, Services, KeyAndPool,
--                           Established: which objects a bridge has once a
--                           step goes on; Lasting, Again: the steps when they run again
--   Finalizer               internal/controller/finalizer: handler.go, manager.go
--   Kubeconfig              internal/controller/kubeconfiginjection: Injector (injector.go), Cleanup
--                           (cleanup_handler.go), Watch (watch.go); Verdict: the report of every branch;
--                           Stored and Delivery take the injection against a server with a store
--   Controller              internal/controller/dpfhcpbridge_controller.go: Phase, Deletion, Reconcile,
--                           Watches with SetupWithManager; the handlers that cmd/main.go registers
--   Program                 cmd/main.go: Options (flags and options), Launch (the steps), Plan (the
--                           list of the steps that a run takes)
--   Tests                   concrete conditions and clients, runs, and the theorems at concrete inputs
--
-- Bounds. Every loop of the program runs over a list, and is structural recursion; no fuel stands for a
-- loop of the program. `decimal` (Base/Text) has more fuel than its number has digits. Generations and
-- times are natural numbers, of which the program only compares and copies the first.
--
-- Simplifications. A map is a list of entries; the mirroring takes the order of the map's iteration as
-- an argument, and the list of the versions in an error text has the order of the entries. Of foreign
-- objects only the fields that the program reads or writes are kept. The condition types and names that
-- come from HyperShift's constants are written out as its documentation gives them. Loggers are left
-- out, and so are the type assertions of the watches' maps, which the types make superfluous.
--
-- The objects that `main` builds from the manager's client stand for themselves, by that client. A
-- certificate watcher is known by the two files that it watches. Go's `append` to the TLS options
-- copies them, because the slice it extends is full, so that lists give what the two servers get.
--
-- Not modelled: controller-runtime with the manager, its queues and its map from an owned object to its
-- owner, the flags of the logger and the registration of the schemes (cmd/main.go), generated deep
-- copies, and the Go client itself.
pub mod Base
pub mod Types
pub mod Platform
pub mod Report
pub mod DpuCluster
pub mod Secrets
pub mod BlueField
pub mod HostedCluster
pub mod Finalizer
pub mod Kubeconfig
pub mod Controller
pub mod Program
pub mod Tests
