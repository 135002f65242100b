-- ===== src/Osc/Secrets.antt =====
-- The Secrets of a MachineDeployment: made once from the OSC, and deleted with it.
use operating_system_manager.Prelude.{String, true, List, [], ◌∷◌, if◌then◌else◌}
use operating_system_manager.Prelude.Dict.{Dict, value, insert}
use operating_system_manager.Prelude.Result.{Error, Result, ok, err, is_not_found}
use operating_system_manager.Prelude.Result
use operating_system_manager.Prelude.Exec.{Exec, pure, raise, lift, wrap, attempt, ◌>>=◌, ◌>>◌}
use operating_system_manager.Crd.{OscConfig, OperatingSystem, CloudProvider, ProvisioningUtility}
use operating_system_manager.Machine.{Key, MachineDeployment, Secret}
use operating_system_manager.Osc.Names.{
  md_hash_annotation, version_annotation, provisioning_cloud_config, bootstrap_config_name,
}
use operating_system_manager.Osc.Api.{Api, Sdk, Parts}

-- resources.GenerateCloudConfigSecret
unfoldable pub generate_cloud_config_secret : String → String → String → Secret
generate_cloud_config_secret name namespace content = record {
  name = name;
  namespace = namespace;
  annotations = [];
  labels = [];
  kind = "Opaque";
  immutable = true;
  entries = insert "cloud-config" content [];
}

-- calculateAnnotationsHash
unfoldable pub calculate_annotations_hash : Sdk → Dict String → Result String
calculate_annotations_hash K annotations =
    Result.◌>>=◌
      (Result.wrap "failed to json encode machinedeployment annotations: %w" []
        (K.marshal_annotations annotations))
      (λ json. ok (K.sha256_hex json))

-- oscRotationAnnotations
unfoldable pub osc_rotation_annotations : Sdk → String → String → String → Dict String → Dict String
osc_rotation_annotations K revision mdhash osp_version annotations =
    insert version_annotation osp_version
      (insert md_hash_annotation mdhash (insert K.machine_deployment_revision revision annotations))

unfoldable pub secret_key_of : Sdk → MachineDeployment → String → Key
secret_key_of K md kind = record {
  namespace = K.cloud_init_settings_namespace;
  name = K.secret_name md.name md.namespace kind;
}

unfoldable pub bootstrap_config_key : Sdk → MachineDeployment → Key
bootstrap_config_key K md = record {
  namespace = K.cloud_init_settings_namespace;
  name = bootstrap_config_name md;
}

module _ (A : Api) (K : Sdk) where
  -- `if err := Delete(...); err != nil && !kerrors.IsNotFound(err)`
  unfoldable pub unless_gone : String → List String → Result (Unit {0}) → Exec A.State (Unit {0})
  unless_gone format args (ok _) = pure tt
  unless_gone format args (err e) =
      if is_not_found e then pure tt else raise (Result.wrapped format args e)

  -- deleteGeneratedSecrets
  unfoldable pub delete_generated_secrets : MachineDeployment → Exec A.State (Unit {0})
  delete_generated_secrets md = do
    attempt (A.delete_secret (secret_key_of K md provisioning_cloud_config)) (
        unless_gone "failed to delete provisioning secret %s against MachineDeployment %s: %w"
          (K.secret_name md.name md.namespace provisioning_cloud_config ∷ md.name ∷ []))
    attempt (A.delete_secret (secret_key_of K md K.bootstrap_cloud_config)) (
        unless_gone "failed to delete bootstrap secret %s against MachineDeployment %s: %w"
          (K.secret_name md.name md.namespace K.bootstrap_cloud_config ∷ md.name ∷ []))
    attempt (A.delete_secret (bootstrap_config_key K md)) (
        unless_gone
          "failed to delete kubelet bootstrap config secret %s against MachineDeployment %s: %w"
          (bootstrap_config_name md ∷ md.name ∷ []))

  module _ (P : Parts A.State) (md : MachineDeployment) (osp_version : String) where
    -- The part of ensureCloudConfigSecret that runs where no Secret was found.
    unfoldable pub create_cloud_config_secret :
        OscConfig
        → ProvisioningUtility
        → String
        → OperatingSystem
        → CloudProvider
        → Exec A.State (Unit {0})
    create_cloud_config_secret config utility kind os provider = do
      content ← lift (
          Result.wrap "failed to generate %s data with error: %w" (kind ∷ [])
            (P.generate config utility os provider md kind))
      mdhash ← lift (calculate_annotations_hash K md.annotations)
      let secret =
          generate_cloud_config_secret (K.secret_name md.name md.namespace kind)
            K.cloud_init_settings_namespace content
      wrap "failed to create %s %s secret: %w" (secret.name ∷ kind ∷ []) (
          A.create_secret (record secret {
            annotations =
                osc_rotation_annotations K (value K.revision_annotation md.annotations) mdhash
                  osp_version secret.annotations;
          }))

    abbrev pub unless_found :
        {B : Type 0} → Exec A.State (Unit {0}) → Result B → Exec A.State (Unit {0})
    unless_found create (ok _) = pure tt
    unless_found create (err e) = create

    -- ensureCloudConfigSecret: any error of the read leads to the create
    unfoldable pub ensure_cloud_config_secret :
        OscConfig
        → ProvisioningUtility
        → String
        → OperatingSystem
        → CloudProvider
        → Exec A.State (Unit {0})
    ensure_cloud_config_secret config utility kind os provider =
        attempt (A.get_secret (secret_key_of K md kind))
          (unless_found (create_cloud_config_secret config utility kind os provider))
