-- ===== src/Osc/Names.antt =====
-- The names of the objects that the controller creates, and the annotations that it reads.
pub mod Laws
use operating_system_manager.Prelude.{String, ◌<>◌, len, leb, if◌then◌else◌, ◌==◌, Bool, not}
use operating_system_manager.Prelude.Dict.{Dict, value}
use operating_system_manager.Machine.{MachineDeployment}

abbrev pub cleanup_finalizer : String
cleanup_finalizer = "kubermatic.io/cleanup-operating-system-configs"

abbrev pub version_annotation : String
version_annotation = "k8c.io/osp-version"

abbrev pub md_hash_annotation : String
md_hash_annotation = "k8c.io/mdannotations-hash"

abbrev pub osp_annotation : String
osp_annotation = "k8c.io/operating-system-profile"

abbrev pub osp_namespace_annotation : String
osp_namespace_annotation = "k8c.io/operating-system-profile-namespace"

-- resources.ProvisioningCloudConfig
abbrev pub provisioning_cloud_config : String
provisioning_cloud_config = "provisioning"

-- bootstrap.CloudInitNamespace
abbrev pub cloud_init_namespace : String
cloud_init_namespace = "cloud-init-settings"

-- fmt.Sprintf("%s-%s-config", name, namespace)
unfoldable pub osc_name : MachineDeployment → String
osc_name md = md.name <> ("-" <> (md.namespace <> "-config"))

-- The key of the bootstrap token: namespace and name, or the name alone where these are long.
unfoldable pub machine_deployment_key : MachineDeployment → String
machine_deployment_key md =
    let key = md.namespace <> ("-" <> md.name) in if leb 63 (len key) then md.name else key

unfoldable pub bootstrap_config_name : MachineDeployment → String
bootstrap_config_name md = machine_deployment_key md <> "-kubelet-bootstrap-config"

unfoldable pub script_secret_name : MachineDeployment → String
script_secret_name md = "edge-provider-script-" <> (md.name <> ("-" <> md.namespace))

-- filterMachineDeploymentPredicate, on an object's annotations
unfoldable pub filter_machine_deployment : Dict String → Bool
filter_machine_deployment annotations = not (value osp_annotation annotations == "")
