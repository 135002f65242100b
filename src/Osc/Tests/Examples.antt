-- ===== src/Osc/Tests/Examples.antt =====
-- The controller, run on the server of Osc/Tests.
use operating_system_manager.Prelude.{
  String, ◌<>◌, if◌then◌else◌, true, false, none, some, [], ◌∷◌, ◌≡◌, refl, len, ◌<◌, arith, eq_iff,
}
use operating_system_manager.Prelude.Dict.{lookup, insert, value, value_or_empty}
use operating_system_manager.Prelude.Result.{
  Error, Result, ok, err, api, other, wrapped, is_not_found,
}
use operating_system_manager.Prelude.Exec.{attempt, wrap, ◌>>=◌}
use operating_system_manager.Machine.{Key, key_eq, raw_spec}
use operating_system_manager.Finalizers.{add_finalizer, has_finalizer, has_all, contains}
use operating_system_manager.Osc.Names.{
  osc_name, machine_deployment_key, bootstrap_config_name, cleanup_finalizer,
}
use operating_system_manager.Osc.Names.Laws.{
  osc_name-injective, osc_name-collides, machine_deployment_key-lt,
}
use operating_system_manager.Osc.Api.Laws.{Content}
use operating_system_manager.Osc.Secrets.{
  generate_cloud_config_secret, calculate_annotations_hash, osc_rotation_annotations, secret_key_of,
  bootstrap_config_key, unless_gone, delete_generated_secrets, create_cloud_config_secret,
  ensure_cloud_config_secret,
}
use operating_system_manager.Osc.Configs.{
  osc_key_of, is_current, osc_utility, rotate_unless_current, handle_rotation, check_utility,
  with_credentials, edge_script_if, annotated, create_osc, reconcile_configs,
}
use operating_system_manager.Osc.Reconciler.{
  reconcile_request, with_finalizer, reconcile_found, finish_deletion, supports_provider,
  check_provider, validate_machine_deployment, osp_key, osp_or_error, fetch_osp, event_on_error,
  check_osp, reconcile_secrets, finish, reconcile_with, reconcile, delete_operating_system_config,
  handle_cleanup,
}
use operating_system_manager.Osc.Current.{KeysDiffer, Fresh, handle_rotation-Fresh}
use operating_system_manager.Osc.Settled.{IsSettled, reconcile-IsSettled}
use operating_system_manager.Osc.Frame.{oscs-reconcile}
use operating_system_manager.Osc.Cleanup.{
  AllGone, IsReleased, handle_cleanup-AllGone, handle_cleanup-failed,
}
use operating_system_manager.Osc.Requests.{
  prepared, reconcile_request-IsSettled, IsCleaned, reconcile_request-absent,
  reconcile_request-IsCleaned,
}
use operating_system_manager.Osc.Tests.{
  server, server-IsLawful, refusing, refusing-IsLawful, sdk, sets, settings, parts_for,
  parts-PartsKeep, parts-NamesOsc, sets-KeepsElements,
}
use operating_system_manager.Osc.Tests.Objects.{
  joining, with_joining, leaving, leaving_at, with_leaving, settled, osp_ubuntu, workers, start,
}

abbrev run : String → Content → Result (Unit {0}) × Content
run provider = reconcile server sdk sets (parts_for provider) settings (workers provider)

run-ok : (run "aws" start).0 ≡ ok tt
unfolding reconcile reconcile_with fetch_osp osp_or_error osp_key check_osp event_on_error
    supports_provider check_provider validate_machine_deployment raw_spec handle_rotation
    rotate_unless_current finish reconcile_configs create_osc check_utility with_credentials
    edge_script_if annotated osc_utility reconcile_secrets ensure_cloud_config_secret
    create_cloud_config_secret secret_key_of generate_cloud_config_secret calculate_annotations_hash
    osc_rotation_annotations osc_key_of osc_name machine_deployment_key attempt wrap ◌>>=◌ value
    value_or_empty lookup insert key_eq is_not_found
run-ok = refl

differ : KeysDiffer sdk
differ = (
  λ h. ground (arith, (eq_iff "k8c.io/machine-deployment-revision" "k8c.io/osp-version").1 h),
  λ h.
      ground (arith, (eq_iff "k8c.io/machine-deployment-revision" "k8c.io/mdannotations-hash").1 h),
)

reconcile-IsSettled_example :
    IsSettled sdk settings
      (workers "aws")
      (osp_key server sdk sets (parts_for "aws") settings (workers "aws"))
      start
      (run "aws" start).1
reconcile-IsSettled_example =
    reconcile-IsSettled server server-IsLawful sdk sets (parts_for "aws") settings (workers "aws")
      differ (parts-NamesOsc "aws") (λ o. parts-PartsKeep "aws" _) start run-ok

abbrev other_at : Key
other_at = record { namespace = "kube-system"; name = "others-kube-system-config" }

other-differs : key_eq (osc_key_of settings (workers "aws")) other_at ≡ false
unfolding osc_key_of osc_name key_eq
other-differs = refl

oscs-reconcile_example : (run "aws" start).1.oscs other_at ≡ none
oscs-reconcile_example =
    oscs-reconcile server server-IsLawful sdk sets (parts_for "aws") settings (workers "aws")
      other_at none (parts-PartsKeep "aws" _) (parts-NamesOsc "aws") other-differs start refl

rotation-ok : (handle_rotation server sdk settings (workers "aws") osp_ubuntu settled).0 ≡ ok tt
unfolding handle_rotation rotate_unless_current is_current calculate_annotations_hash attempt ◌>>=◌
    osc_key_of osc_name key_eq value value_or_empty lookup
rotation-ok = refl

handle_rotation-Fresh_example :
    Fresh sdk settings
      (workers "aws")
      osp_ubuntu
      (handle_rotation server sdk settings (workers "aws") osp_ubuntu settled).1
handle_rotation-Fresh_example =
    handle_rotation-Fresh server server-IsLawful sdk (parts_for "aws") settings (workers "aws")
      osp_ubuntu differ settled rotation-ok

cleanup-ok :
    (handle_cleanup server sdk sets (parts_for "aws") settings (workers "aws") settled).0 ≡ ok tt
unfolding handle_cleanup delete_operating_system_config delete_generated_secrets unless_gone
    secret_key_of bootstrap_config_key bootstrap_config_name machine_deployment_key osc_key_of
    osc_name is_not_found key_eq attempt wrap ◌>>=◌
cleanup-ok = refl

handle_cleanup-AllGone_example :
    AllGone sdk settings
      (workers "aws")
      (handle_cleanup server sdk sets (parts_for "aws") settings (workers "aws") settled).1
    × IsReleased
        (workers "aws")
        (handle_cleanup server sdk sets (parts_for "aws") settings (workers "aws") settled).1
handle_cleanup-AllGone_example =
    handle_cleanup-AllGone server server-IsLawful sdk sets (parts_for "aws") settings
      (workers "aws") sets-KeepsElements settled cleanup-ok

cleanup-refused :
    (handle_cleanup refusing sdk sets (parts_for "aws") settings (workers "aws") settled).0
    ≡ err (wrapped "failed to remove finalizer: %w" [] (api (other "conflict")))
unfolding handle_cleanup delete_operating_system_config delete_generated_secrets unless_gone
    secret_key_of bootstrap_config_key bootstrap_config_name machine_deployment_key osc_key_of
    osc_name is_not_found key_eq attempt wrap ◌>>=◌
cleanup-refused = refl

handle_cleanup-failed_example :
    (handle_cleanup refusing sdk sets (parts_for "aws") settings (workers "aws") settled).1.mds
    ≡ settled.mds
handle_cleanup-failed_example =
    handle_cleanup-failed refusing refusing-IsLawful sdk sets (parts_for "aws") settings
      (workers "aws") settled _ cleanup-refused

osc_name-injective_example : (workers "aws").name ≡ (workers "edge").name
unfolding osc_name
osc_name-injective_example = osc_name-injective (workers "aws") (workers "edge") refl refl

osc_name-collides_example :
    osc_name (record (workers "aws") { name = "a"; namespace = "b" <> ("-" <> "c") })
    ≡ osc_name (record (workers "aws") { name = "a" <> ("-" <> "b"); namespace = "c" })
osc_name-collides_example = osc_name-collides (workers "aws") "a" "b" "c"

machine_deployment_key-lt_example : len (machine_deployment_key (workers "aws")) < 63
machine_deployment_key-lt_example = machine_deployment_key-lt (workers "aws") (ground arith)

abbrev handle : Key → Content → Result (Unit {0}) × Content
handle = reconcile_request server sdk sets (parts_for "aws") settings

reconcile_request-absent_example :
    ((handle leaving_at settled).1 ≡ settled)
    × ((e : Error)
        → (server.get_md leaving_at settled).0 ≡ err e
        → (handle leaving_at settled).0 ≡ (if is_not_found e then ok tt else err e))
reconcile_request-absent_example =
    reconcile_request-absent server server-IsLawful sdk sets (parts_for "aws") settings leaving_at
      settled refl

leaving-pending : has_finalizer leaving (cleanup_finalizer ∷ []) ≡ true
unfolding has_finalizer has_all contains
leaving-pending = refl

leaving-stored : with_leaving.mds leaving_at ≡ some leaving
unfolding key_eq
leaving-stored = refl

handle-ok : (handle leaving_at with_leaving).0 ≡ ok tt
unfolding reconcile_request reconcile_found finish_deletion has_finalizer has_all contains
    handle_cleanup delete_operating_system_config delete_generated_secrets unless_gone secret_key_of
    bootstrap_config_key bootstrap_config_name machine_deployment_key osc_key_of osc_name
    is_not_found key_eq attempt wrap ◌>>=◌
handle-ok = refl

reconcile_request-IsCleaned_example :
    IsCleaned server server-IsLawful sdk sets
      (parts_for "aws")
      settings
      leaving_at
      leaving
      refl
      leaving-pending
      sets-KeepsElements
      (handle leaving_at with_leaving).1
reconcile_request-IsCleaned_example =
    reconcile_request-IsCleaned server server-IsLawful sdk sets (parts_for "aws") settings
      leaving_at leaving refl leaving-pending sets-KeepsElements with_leaving leaving-stored
      handle-ok

joining-stored : with_joining.mds leaving_at ≡ some joining
unfolding key_eq
joining-stored = refl

joining-ok : (handle leaving_at with_joining).0 ≡ ok tt
unfolding reconcile reconcile_with fetch_osp osp_or_error osp_key check_osp event_on_error
    supports_provider check_provider validate_machine_deployment raw_spec handle_rotation
    rotate_unless_current finish reconcile_configs create_osc check_utility with_credentials
    edge_script_if annotated osc_utility reconcile_secrets ensure_cloud_config_secret
    create_cloud_config_secret secret_key_of generate_cloud_config_secret calculate_annotations_hash
    osc_rotation_annotations osc_key_of osc_name machine_deployment_key attempt wrap ◌>>=◌ value
    value_or_empty lookup insert key_eq is_not_found reconcile_request reconcile_found
    with_finalizer has_finalizer has_all contains add_finalizer
joining-ok = refl

reconcile_request-IsSettled_example :
    IsSettled sdk settings
      (prepared sets joining)
      (osp_key server sdk sets (parts_for "aws") settings (prepared sets joining))
      with_joining
      (handle leaving_at with_joining).1
reconcile_request-IsSettled_example =
    reconcile_request-IsSettled server server-IsLawful sdk sets (parts_for "aws") settings differ
      (parts-NamesOsc "aws") (λ k o. parts-PartsKeep "aws" _) leaving_at joining refl with_joining
      joining-stored joining-ok
