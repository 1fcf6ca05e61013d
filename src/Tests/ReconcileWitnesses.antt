-- ===== src/Tests/ReconcileWitnesses.antt =====
-- Further theorems on whole reconciliations, on the watches, and on release images, each applied at a
-- concrete input.
use dpf_hcp_bridge_operator.Base.{String, true, false, List, [], ◌∷◌, ◌≡◌, ◌≢◌, refl, ◌↔◌, inl, inr}
use dpf_hcp_bridge_operator.Base.Text.{append, has_suffix, contains, split, trim_suffix}
use dpf_hcp_bridge_operator.Base.Result.{success}
use dpf_hcp_bridge_operator.Types.{
  ConfigMap, HostedCluster, Secret, NamespacedName, key_of, condition_false, opaque,
}
use dpf_hcp_bridge_operator.Platform.{ok, Call, Trace, done}
use dpf_hcp_bridge_operator.BlueField.Version.{
  last_part, version_of_tag, strip_suffixes, arch_suffixes, extract_ocp_version,
}
use dpf_hcp_bridge_operator.Secrets.{validate_secrets}
use dpf_hcp_bridge_operator.Secrets.Again.{validate_secrets-Again}
use dpf_hcp_bridge_operator.Report.Events.{Again}
use dpf_hcp_bridge_operator.BlueField.Tag.{Unsuffixed, extract_ocp_version-append}
use dpf_hcp_bridge_operator.Kubeconfig.Injector.{kubeconfig_secret_name}
use dpf_hcp_bridge_operator.Kubeconfig.Watch.{WatchedObject}
use dpf_hcp_bridge_operator.Kubeconfig.Cleanup.{cleanup_kubeconfig}
use dpf_hcp_bridge_operator.Kubeconfig.Cleanup.Removed.{Cleaned, cleanup_kubeconfig-Cleaned}
use dpf_hcp_bridge_operator.Controller.Reconcile.{reconcile}
use dpf_hcp_bridge_operator.Controller.Reconcile.Consistent.{StoredLast, reconcile-StoredLast}
use dpf_hcp_bridge_operator.Controller.Deletion.{
  registered_handlers, without_finalizer, handle_deletion,
}
use dpf_hcp_bridge_operator.Controller.Deletion.Completes.{NothingLeft, handle_deletion_completes}
use dpf_hcp_bridge_operator.Controller.Watches.{last_of_type}
use dpf_hcp_bridge_operator.Controller.Watches.Setup.{hosted_cluster_predicate, setup_with_manager}
use dpf_hcp_bridge_operator.Controller.Watches.RoundTrip.{Passes, kubeconfig_secret_watched}
use dpf_hcp_bridge_operator.Controller.Watches.Readings.{Distinct}
use dpf_hcp_bridge_operator.Controller.Watches.Updates.{TellsSame, hosted_cluster_predicate_exact}
use dpf_hcp_bridge_operator.Tests.Fixtures.{
  helpers, helpers_laws, answer_secret, bridge, fresh, fresh_echo, not_found, request, hosted,
  vacant, copied, named,
}
use dpf_hcp_bridge_operator.Tests.Runs.{first_run_completes, copied_run-none}

reconcile-StoredLast_example :
    StoredLast helpers (reconcile helpers fresh (registered_handlers fresh) [] request []).1
reconcile-StoredLast_example =
    reconcile-StoredLast helpers_laws fresh_echo (registered_handlers fresh) [] request [] bridge
      refl refl refl first_run_completes

nothing_left : NothingLeft vacant
nothing_left = record {
  hosted_cluster = λ h key. (not_found, refl, refl);
  node_pool = λ h key. (not_found, refl, refl);
  secret = λ h key. (not_found, refl, refl);
  copies = λ h labels. refl;
}

handle_deletion_completes_example :
    let r = handle_deletion helpers vacant (registered_handlers vacant) bridge [] in
    (r.0.1 ≡ done)
    × ((before : Trace) × (r.1
          ≡ Call.update_bridge
              (without_finalizer helpers bridge)
              (ok (without_finalizer helpers bridge))
            ∷ before))
handle_deletion_completes_example =
    handle_deletion_completes vacant nothing_left helpers bridge [] refl refl (λ t b. refl)

cleanup_kubeconfig-Cleaned_example : Cleaned bridge (cleanup_kubeconfig copied bridge []).1
cleanup_kubeconfig-Cleaned_example = cleanup_kubeconfig-Cleaned copied bridge [] copied_run-none

version-Unsuffixed : Unsuffixed arch_suffixes "4.19.0"
unfolding has_suffix
version-Unsuffixed = (refl, (refl, (refl, (refl, (refl, (refl, tt))))))

abbrev version : String
version = "4.19.0"

version_filled : version ≢ ""
version_filled e = absurd (cc e)

extract_ocp_version-append_example :
    extract_ocp_version (append "quay.io:443/r" (append ":" (append "4.19.0" "-multi")))
    ≡ success "4.19.0"
extract_ocp_version-append_example =
    extract_ocp_version-append "quay.io:443/r" "4.19.0" "-multi" version_filled
      (refl, (refl, (refl, (refl, (refl, (refl, tt)))))) version-Unsuffixed (inr (inl refl))

abbrev pub images : ConfigMap
images = record { meta = named "images"; content = ("4.19", "image:1") ∷ [] }

abbrev release_image : String
release_image = "r:4.19"

abbrev pub image : String
image = "image:1"

pub release_image_given : release_image ≢ ""
release_image_given e = absurd (cc e)

pub image_given : image ≢ ""
image_given e = absurd (cc e)

pub image-tagged : contains image ":" ≡ true
unfolding contains
image-tagged = refl

pub release_image-version : extract_ocp_version release_image ≡ success "4.19"
unfolding extract_ocp_version last_part split version_of_tag strip_suffixes trim_suffix
release_image-version = refl

abbrev kubeconfig_secret : Secret
kubeconfig_secret = record {
  meta = named (kubeconfig_secret_name bridge);
  kind = opaque;
  content = [];
}

abbrev no_owner : HostedCluster → Trace → List NamespacedName × Trace
no_owner hc h = ([], h)

kubeconfig_secret_watched_example :
    let w = (setup_with_manager fresh no_owner).kubeconfig_secrets in
    Passes w.predicate (WatchedObject.secret kubeconfig_secret)
    × ((w.requests (WatchedObject.secret kubeconfig_secret) []).0 ≡ key_of bridge.meta ∷ [])
kubeconfig_secret_watched_example =
    kubeconfig_secret_watched fresh no_owner bridge kubeconfig_secret [] refl refl

-- The HostedCluster with another reason.
abbrev recovered : HostedCluster
recovered = record hosted {
  conditions =
      record {
        kind = "Degraded";
        status = condition_false;
        reason = "AsExpected";
        message = "";
        last_transition_time = 4;
        observed_generation = 2;
      }
      ∷ [];
}

hosted-Distinct : Distinct hosted.conditions
unfolding last_of_type
hosted-Distinct = (refl, tt)

recovered-Distinct : Distinct recovered.conditions
unfolding last_of_type
recovered-Distinct = (refl, tt)

hosted_cluster_predicate_exact_example :
    (hosted_cluster_predicate.update_func hosted recovered ≡ false)
    ↔ TellsSame hosted.conditions recovered.conditions
hosted_cluster_predicate_exact_example =
    hosted_cluster_predicate_exact hosted recovered hosted-Distinct recovered-Distinct

-- Both secrets are there, and so is the image.
validate_secrets-Again_example : Again helpers (validate_secrets helpers fresh) bridge [] []
validate_secrets-Again_example =
    validate_secrets-Again helpers_laws fresh_echo answer_secret (λ u key. refl) bridge [] []
