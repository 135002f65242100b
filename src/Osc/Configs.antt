-- ===== src/Osc/Configs.antt =====
-- The OSC of a MachineDeployment: created where there is none, and deleted where it is outdated.
use operating_system_manager.Prelude.{
  String, ◌<>◌, Bool, true, false, [], ◌∷◌, ◌==◌, ◌&&◌, not, if◌then◌else◌,
}
use operating_system_manager.Prelude.Dict.{Dict, value, insert}
use operating_system_manager.Prelude.Result.{
  Error, Result, ok, err, is_not_found, errorf, wrapped, panicked,
}
use operating_system_manager.Prelude.Result
use operating_system_manager.Prelude.Exec.{Exec, pure, raise, lift, wrap, attempt, ◌>>=◌, ◌>>◌}
use operating_system_manager.Crd.{Osp, Osc, ProvisioningUtility, cloud_init}
use operating_system_manager.Machine.{Key, MachineDeployment, Secret, Kubeconfig, KubeCluster}
use operating_system_manager.ContainerRuntime.Config.{Config}
use operating_system_manager.Osc.Names.{
  md_hash_annotation, version_annotation, osc_name, script_secret_name, cloud_init_namespace,
  machine_deployment_key,
}
use operating_system_manager.Osc.Api.{Api, Sdk, Parts, Settings}
use operating_system_manager.Osc.Secrets.{
  calculate_annotations_hash, osc_rotation_annotations, delete_generated_secrets,
}

unfoldable pub osc_key_of : Settings → MachineDeployment → Key
osc_key_of r md = record { namespace = r.namespace; name = osc_name md }

-- `config.Clusters[clusterName]` for the first key of a range loop; a missing one is dereferenced.
unfoldable pub first_cluster : Dict KubeCluster → Result KubeCluster
first_cluster [] = err panicked
first_cluster ((name, cluster) ∷ clusters) = ok cluster

-- The script of generateEdgeScript, at a token, a server and the name of the bootstrap secret.
unfoldable pub edge_script : String → String → String → String
edge_script token server secret =
    "apt-get update -y\napt-get install jq -y\ncurl -s -k -v --header 'Authorization: Bearer "
    <> (token
        <> ("' "
            <> (server
                <> ("/api/v1/namespaces/cloud-init-settings/secrets/"
                    <> (secret
                        <> (" | jq '.data[\"cloud-config\"]' -r| base64 -d > /etc/cloud/cloud.cfg.d/"
                            <> (secret
                                <> (".cfg \ncloud-init --file /etc/cloud/cloud.cfg.d/"
                                    <> (secret
                                        <> ".cfg init\nsystemctl enable bootstrap.service\nsystemctl restart bootstrap.service\n")))))))))

-- An OSC is up to date: its revision, OSP version and annotation hash are the current ones.
unfoldable pub is_current : Sdk → MachineDeployment → Osp → String → Osc → Bool
is_current K md osp mdhash osc =
    value K.revision_annotation md.annotations
      == value K.machine_deployment_revision osc.annotations
    && (osp.spec.version == value version_annotation osc.annotations
        && value md_hash_annotation osc.annotations == mdhash)

-- The provisioning utility of a created OSC: that of the OSP, cloud-init where it names none.
unfoldable pub osc_utility : ProvisioningUtility → ProvisioningUtility
osc_utility utility = if utility == "" then cloud_init else utility

module _ (A : Api) (md : MachineDeployment) where
  -- What generateEdgeScript does with the answer of its read.
  unfoldable pub store_script : String → Result Secret → Exec A.State (Unit {0})
  store_script script (ok secret) = A.create_secret (record secret {
    name = script_secret_name md;
    namespace = cloud_init_namespace;
    entries = insert "fetch-bootstrap-script" script secret.entries;
  })
  store_script script (err e) =
      if is_not_found e
      then A.create_secret (record {
        name = script_secret_name md;
        namespace = cloud_init_namespace;
        annotations = [];
        labels = [];
        kind = "";
        immutable = false;
        entries = ("fetch-bootstrap-script", script) ∷ [];
      })
      else raise (
          wrapped "failed to get %s secret in namespace %s: %w"
            (script_secret_name md ∷ cloud_init_namespace ∷ []) e)

  unfoldable pub generate_edge_script : String → Kubeconfig → Exec A.State (Unit {0})
  generate_edge_script token config = do
    cluster ← lift (first_cluster config.clusters)
    let script =
        edge_script token cluster.server (md.name <> ("-" <> (md.namespace <> "-bootstrap-config")))
    attempt
        (A.get_secret (record { namespace = cloud_init_namespace; name = script_secret_name md }))
        (store_script script)

module _ (A : Api) (K : Sdk) (r : Settings) (md : MachineDeployment) (osp : Osp) where
  -- The OSC is outdated: it and the secrets are deleted.
  unfoldable pub rotate : Exec A.State (Unit {0})
  rotate = do
    wrap "failed to delete OperatingSystemConfig %s: %v against MachineDeployment %w"
        (osc_name md ∷ md.name ∷ []) (A.delete_osc (osc_key_of r md))
    delete_generated_secrets A K md

  unfoldable pub rotate_unless_current : Result Osc → Exec A.State (Unit {0})
  rotate_unless_current (ok osc) = do
    mdhash ← lift (calculate_annotations_hash K md.annotations)
    if is_current K md osp mdhash osc then pure tt else rotate
  rotate_unless_current (err e) = if is_not_found e then pure tt else raise e

  -- handleOSCAndSecretsRotation
  unfoldable pub handle_rotation : Exec A.State (Unit {0})
  handle_rotation = attempt (A.get_osc (osc_key_of r md)) rotate_unless_current

module _ (A : Api) (K : Sdk) (P : Parts A.State) (r : Settings) (md : MachineDeployment)
    (osp : Osp) where
  -- GetProvisioningUtility and the test against the OSP's utility
  unfoldable pub check_utility : Result (Unit {0})
  check_utility =
      Result.◌>>=◌
        (Result.wrap "failed to determine provisioning utility: %w" []
          (P.provisioning_utility osp.spec.os_name md))
        (λ provisioner.
          if not (osp.spec.provisioning_utility == "")
            && not (provisioner == osp.spec.provisioning_utility)
          then err (
              errorf
                "specified provisioning utility %q is not supported by the OperatingSystemProfile"
                (osp.spec.provisioning_utility ∷ []))
          else ok tt)

  -- The container runtime configuration with the registry credentials read anew. The reconciler
  -- keeps them, and every later use is behind the same read.
  unfoldable pub with_credentials : Exec A.State Config
  with_credentials =
      if r.node_registry_credentials_secret == "" then pure r.container_runtime_config else do
        credentials ←
            wrap "failed to get containerd auth config: %w" []
              (P.containerd_auth_config r.node_registry_credentials_secret)
        pure (record r.container_runtime_config { registry_credentials = credentials })

  unfoldable pub edge_script_if : Bool → String → Kubeconfig → Exec A.State (Unit {0})
  edge_script_if true token config =
      wrap "failed to generate edge provider bootstrap script: %w" []
        (generate_edge_script A md token config)
  edge_script_if false token config = pure tt

  -- The OSC as it is stored: with the rotation annotations and the provisioning utility.
  unfoldable pub annotated : String → Osc → Osc
  annotated mdhash osc = record osc {
    annotations =
        osc_rotation_annotations K (value K.revision_annotation md.annotations) mdhash
          osp.spec.version osc.annotations;
    spec = record osc.spec { provisioning_utility = osc_utility osp.spec.provisioning_utility };
  }

  -- The part of reconcileOperatingSystemConfigs that runs where no OSC was found.
  unfoldable pub create_osc : Kubeconfig → String → Exec A.State (Unit {0})
  create_osc kubeconfig kubeconfig_name = do
    lift check_utility
    config ← with_credentials
    token ← wrap "failed to fetch api-server token: %w" [] P.extract_token
    osc ← lift (
        Result.wrap "failed to generate %s osc: %w" (osc_name md ∷ []) (
          P.generate_osc
            (record {
              md = md;
              osp = osp;
              bootstrap_kubeconfig = kubeconfig;
              bootstrap_kubeconfig_name = kubeconfig_name;
              token = token;
              osc_name = osc_name md;
            })
            (record r { container_runtime_config = config })))
    edge_script_if (osc.spec.cloud_provider.name == "edge") token kubeconfig
    mdhash ← lift (calculate_annotations_hash K md.annotations)
    wrap "failed to create %s osc: %w" (osc_name md ∷ []) (A.create_osc (annotated mdhash osc))

  abbrev pub create_unless_found : Exec A.State (Unit {0}) → Result Osc → Exec A.State (Unit {0})
  create_unless_found create (ok _) = pure tt
  create_unless_found create (err e) = create

  -- reconcileOperatingSystemConfigs: any error of the read leads to the create
  unfoldable pub reconcile_configs : Exec A.State (Unit {0})
  reconcile_configs = do
    (kubeconfig, kubeconfig_name) ←
        wrap "failed to create bootstrap kubeconfig: %w" []
          (P.create_bootstrap_kubeconfig (machine_deployment_key md))
    attempt (A.get_osc (osc_key_of r md))
        (create_unless_found (create_osc kubeconfig kubeconfig_name))
