-- ===== src/Osc/Reconciler.antt =====
-- osc_controller.go: a request, from the read of its MachineDeployment to the last write.
use operating_system_manager.Prelude.{
  String, Bool, List, [], ◌∷◌, ◌==◌, ◌||◌, not, if◌then◌else◌, len, false, nat_eq,
}
use operating_system_manager.Prelude.Dict.{value}
use operating_system_manager.Prelude.Result.{Error, Result, ok, err, is_not_found, errorf, wrapped}
use operating_system_manager.Prelude.Result
use operating_system_manager.Prelude.Exec.{Exec, pure, raise, wrap, attempt, ◌>>=◌, ◌>>◌}
use operating_system_manager.Crd.{Osp, CloudProviderSpec}
use operating_system_manager.Machine.{Key, MachineDeployment, ProviderConfig, raw_spec}
use operating_system_manager.Finalizers.{Sets, has_finalizer, add_finalizer, remove_finalizer}
use operating_system_manager.Osc.Names.{
  cleanup_finalizer, osp_annotation, osp_namespace_annotation, provisioning_cloud_config, osc_name,
}
use operating_system_manager.Osc.Api.{Api, Sdk, Parts, Settings}
use operating_system_manager.Osc.Secrets.{
  unless_gone, delete_generated_secrets, ensure_cloud_config_secret,
}
use operating_system_manager.Osc.Configs.{osc_key_of, handle_rotation, reconcile_configs}

unfoldable pub supports_provider : List CloudProviderSpec → String → Bool
supports_provider [] provider = false
supports_provider (p ∷ ps) provider = p.name == provider || supports_provider ps provider

-- The tests of validateMachineDeployment on a decoded provider configuration.
unfoldable pub check_provider : Osp → ProviderConfig → Result (Unit {0})
check_provider osp config =
    if not (osp.spec.os_name == config.operating_system)
    then err (
        errorf "OperatingSystemProfile %q does not support operating system %q"
          (osp.name ∷ config.operating_system ∷ []))
    else if not (supports_provider osp.spec.supported_cloud_providers config.cloud_provider)
    then err (
        errorf "OperatingSystemProfile %q does not support cloud provider %q"
          (osp.name ∷ config.cloud_provider ∷ []))
    else ok tt

-- validateMachineDeployment
unfoldable pub validate_machine_deployment : Sdk → MachineDeployment → Osp → Result (Unit {0})
validate_machine_deployment K md osp = Result.◌>>=◌ (raw_spec md.provider_spec) λ raw.
    Result.◌>>=◌ (Result.wrap "failed to decode provider config: %w" [] (K.unmarshal_provider raw))
      (check_provider osp)

module _ (A : Api) (K : Sdk) (S : Sets) (P : Parts A.State) (r : Settings) where
  module _ (md : MachineDeployment) where
    unfoldable pub osp_key : Key
    osp_key =
        let named = value osp_namespace_annotation md.annotations in
        record {
          namespace = if nat_eq (len named) 0 then r.namespace else named;
          name = value osp_annotation md.annotations;
        }

    unfoldable pub osp_or_error : Result Osp → Exec A.State Osp
    osp_or_error (ok osp) = pure osp
    osp_or_error (err e) =
        if is_not_found e
        then raise (errorf "OperatingSystemProfile %q not found" (osp_key.name ∷ []))
        else raise (
            wrapped "failed to get OperatingSystemProfile %q from namespace %q: %w"
              (osp_key.name ∷ osp_key.namespace ∷ []) e)

    -- fetchOSP
    unfoldable pub fetch_osp : Exec A.State Osp
    fetch_osp = attempt (A.get_osp osp_key) osp_or_error

    unfoldable pub event_on_error : Result (Unit {0}) → Exec A.State (Unit {0})
    event_on_error (ok _) s = (ok tt, s)
    event_on_error (err e) s = (err e, A.event md "OperatingSystemProfileError" e s)

    -- checkOSP
    unfoldable pub check_osp : Osp → Exec A.State (Unit {0})
    check_osp osp = event_on_error (validate_machine_deployment K md osp)

    -- reconcileSecrets
    unfoldable pub reconcile_secrets : Osp → Exec A.State (Unit {0})
    reconcile_secrets osp = do
      osc ←
          wrap "failed to get OperatingSystemConfigs %q from namespace %q: %w"
            (osc_name md ∷ r.namespace ∷ []) (A.get_osc (osc_key_of r md))
      wrap "failed to reconcile provisioning config secret: %w" [] (
          ensure_cloud_config_secret A K P md osp.spec.version osc.spec.provisioning_config
            osc.spec.provisioning_utility provisioning_cloud_config osc.spec.os_name
            osc.spec.cloud_provider.name)
      wrap "failed to reconcile bootstrapping config secret: %w" [] (
          ensure_cloud_config_secret A K P md osp.spec.version osc.spec.bootstrap_config
            osc.spec.provisioning_utility K.bootstrap_cloud_config osc.spec.os_name
            osc.spec.cloud_provider.name)

    -- The last two steps of reconcile.
    unfoldable pub finish : Osp → Exec A.State (Unit {0})
    finish osp = do
      wrap "failed to reconcile operating system config: %w" [] (reconcile_configs A K P r md osp)
      wrap "failed to reconcile secrets: %w" [] (reconcile_secrets osp)

    -- reconcile, after the OSP is fetched
    unfoldable pub reconcile_with : Osp → Exec A.State (Unit {0})
    reconcile_with osp = do
      wrap "failed to validate referenced OSP: %w" [] (check_osp osp)
      wrap "failed to perform rotation for OSC and secrets: %w" [] (handle_rotation A K r md osp)
      finish osp

    -- reconcile
    unfoldable pub reconcile : Exec A.State (Unit {0})
    reconcile = do
      osp ← wrap "failed to fetch OperatingSystemProfile: %w" [] fetch_osp
      reconcile_with osp

    -- deleteOperatingSystemConfig
    unfoldable pub delete_operating_system_config : Exec A.State (Unit {0})
    delete_operating_system_config = attempt (A.delete_osc (osc_key_of r md)) (
        unless_gone A K "failed to delete OperatingSystemConfig %s: %v against MachineDeployment %w"
          (osc_name md ∷ md.name ∷ []))

    -- handleMachineDeploymentCleanup
    unfoldable pub handle_cleanup : Exec A.State (Unit {0})
    handle_cleanup = do
      delete_operating_system_config
      delete_generated_secrets A K md
      wrap "failed to remove finalizer: %w" []
          (A.update_md (remove_finalizer S md (cleanup_finalizer ∷ [])))

    -- The branch of Reconcile for an object that is marked for deletion.
    unfoldable pub finish_deletion : Exec A.State (Unit {0})
    finish_deletion = if has_finalizer md (cleanup_finalizer ∷ []) then handle_cleanup else pure tt

  -- The branch of Reconcile for any other object.
  unfoldable pub with_finalizer : MachineDeployment → Exec A.State (Unit {0})
  with_finalizer md = if has_finalizer md (cleanup_finalizer ∷ []) then reconcile md else (do
    let md' = add_finalizer S md (cleanup_finalizer ∷ [])
    wrap "failed to add finalizer: %w" [] (A.update_md md')
    reconcile md')

  unfoldable pub reconcile_found : Result MachineDeployment → Exec A.State (Unit {0})
  reconcile_found (ok md) = if md.deleting then finish_deletion md else with_finalizer md
  reconcile_found (err e) = if is_not_found e then pure tt else raise e

  -- Reconcile
  unfoldable pub reconcile_request : Key → Exec A.State (Unit {0})
  reconcile_request k = attempt (A.get_md k) reconcile_found
