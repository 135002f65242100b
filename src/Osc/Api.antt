-- ===== src/Osc/Api.antt =====
-- What the OSC controller is given: the two API clients, the constants of the machine-controller
-- SDK, the encoders, and the parts of the program that it calls.
pub mod Laws
pub mod Keeps
use operating_system_manager.Prelude.{String, Bool, List}
use operating_system_manager.Prelude.Dict.{Dict}
use operating_system_manager.Prelude.Result.{Error, Result}
use operating_system_manager.Prelude.Exec.{Exec}
use operating_system_manager.Crd.{
  Osp, Osc, OscConfig, OperatingSystem, CloudProvider, ProvisioningUtility,
}
use operating_system_manager.Machine.{Key, MachineDeployment, ProviderConfig, Secret, Kubeconfig}
use operating_system_manager.ContainerRuntime.Config.{Config, AuthConfig}

-- The requests that the controller makes, over an unknown state of the clusters: MachineDeployments
-- and Secrets through `workerClient`, the rest through `Client`.
pub record Api : Type 1 where
  pub State : Type 0
  pub get_md : Key → Exec State MachineDeployment
  pub update_md : MachineDeployment → Exec State (Unit {0})
  pub get_osp : Key → Exec State Osp
  pub get_osc : Key → Exec State Osc
  pub create_osc : Osc → Exec State (Unit {0})
  pub delete_osc : Key → Exec State (Unit {0})
  pub get_secret : Key → Exec State Secret
  pub create_secret : Secret → Exec State (Unit {0})
  pub update_secret : Secret → Exec State (Unit {0})
  pub delete_secret : Key → Exec State (Unit {0})
  -- a Secret through `Client`
  pub get_local_secret : Key → Exec State Secret
  -- recorder.Event, with the reason and the error that is told
  pub event : MachineDeployment → String → Error → State → State

-- Constants of k8c.io/machine-controller/sdk, and two encoders.
pub record Sdk : Type 0 where
  -- CloudConfigSecretNamePattern at a name, a namespace and a type
  pub secret_name : String → String → String → String
  pub cloud_init_settings_namespace : String
  pub bootstrap_cloud_config : String
  pub revision_annotation : String
  pub machine_deployment_revision : String
  -- json.Marshal of annotations, and SHA-256 in hexadecimal digits
  pub marshal_annotations : Dict String → Result String
  pub sha256_hex : String → String
  -- json.Unmarshal of a provider configuration
  pub unmarshal_provider : String → Result ProviderConfig

-- The reconciler's fields that hold values.
pub record Settings : Type 0 where
  pub namespace : String
  pub container_runtime : String
  pub external_cloud_provider : Bool
  pub initial_taints : String
  pub cluster_dns_ips : List String
  pub ca_cert : String
  pub host_ca_cert : String
  pub node_http_proxy : String
  pub node_no_proxy : String
  pub node_registry_credentials_secret : String
  pub container_runtime_config : Config
  pub kubelet_feature_gates : Dict Bool

-- The arguments of GenerateOperatingSystemConfig that are not settings.
pub record OscRequest : Type 0 where
  pub md : MachineDeployment
  pub osp : Osp
  pub bootstrap_kubeconfig : Kubeconfig
  pub bootstrap_kubeconfig_name : String
  pub token : String
  pub osc_name : String

-- The other packages that the reconciler calls.
pub record Parts (S : Type 0) : Type 0 where
  -- bootstrap.Bootstrap.CreateBootstrapKubeconfig
  pub create_bootstrap_kubeconfig : String → Exec S (Kubeconfig × String)
  -- bootstrap.ExtractAPIServerToken
  pub extract_token : Exec S String
  -- containerruntime.GetContainerdAuthConfig
  pub containerd_auth_config : String → Exec S (Dict AuthConfig)
  -- generator.GetProvisioningUtility
  pub provisioning_utility : OperatingSystem → MachineDeployment → Result ProvisioningUtility
  -- resources.GenerateOperatingSystemConfig
  pub generate_osc : OscRequest → Settings → Result Osc
  -- generator.CloudConfigGenerator.Generate
  pub generate :
      OscConfig
      → ProvisioningUtility
      → OperatingSystem
      → CloudProvider
      → MachineDeployment
      → String
      → Result String
