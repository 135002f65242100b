-- ===== src/Resources/Data.antt =====
-- operating_system_config.go: what the templates of a profile are executed on.
use operating_system_manager.Prelude.{String, Bool, Option, none, List}
use operating_system_manager.Prelude.Int.{ℤ}
use operating_system_manager.Prelude.Dict.{Dict}
use operating_system_manager.Crd.{CloudProvider}
use operating_system_manager.Machine.{NetworkConfig}
use operating_system_manager.ProviderConfig.{
  UpgradeConfig, FlatcarConfig, RhelConfig, zero_upgrade, zero_flatcar, zero_rhel,
}

-- kubeletConfig; a duration counts nanoseconds
pub record KubeletConfig : Type 0 where
  pub kube_reserved : Option (Dict String)
  pub system_reserved : Option (Dict String)
  pub eviction_hard : Option (Dict String)
  pub max_pods : Option ℤ
  pub container_log_max_size : Option String
  pub container_log_max_files : Option String
  pub image_gc_high_threshold_percent : Option ℤ
  pub image_gc_low_threshold_percent : Option ℤ
  pub image_minimum_gc_age : Option ℤ
  pub image_maximum_gc_age : Option ℤ

abbrev pub zero_kubelet : KubeletConfig
zero_kubelet = record {
  kube_reserved = none;
  system_reserved = none;
  eviction_hard = none;
  max_pods = none;
  container_log_max_size = none;
  container_log_max_files = none;
  image_gc_high_threshold_percent = none;
  image_gc_low_threshold_percent = none;
  image_minimum_gc_age = none;
  image_maximum_gc_age = none;
}

-- operatingSystemConfig
pub record OperatingSystemConfig : Type 0 where
  pub amazon_linux_config : UpgradeConfig
  pub flatcar_config : FlatcarConfig
  pub rhel_config : RhelConfig
  pub ubuntu_config : UpgradeConfig
  pub rocky_linux_config : UpgradeConfig

abbrev pub zero_operating_system : OperatingSystemConfig
zero_operating_system = record {
  amazon_linux_config = zero_upgrade;
  flatcar_config = zero_flatcar;
  rhel_config = zero_rhel;
  ubuntu_config = zero_upgrade;
  rocky_linux_config = zero_upgrade;
}

-- bootstrapConfig
pub record BootstrapConfig : Type 0 where
  pub token : String
  pub server_url : String
  pub secret_name : String
  pub bootstrap_kubeconfig_secret_name : String

-- filesData; an embedded struct is a field
pub record FilesData : Type 0 where
  pub kube_version : String
  pub kubelet_configuration : String
  pub kubelet_systemd_unit : String
  pub bootstrap_kubeconfig : String
  pub in_tree_ccm_available : Bool
  pub cni_version : String
  pub cluster_dns_ips : List String
  pub kubernetes_ca_cert : String
  pub host_ca_cert : String
  pub server_address : String
  pub cloud_config : String
  pub container_runtime : String
  pub cloud_provider_name : CloudProvider
  pub network_config : Option NetworkConfig
  pub external_cloud_provider : Bool
  pub initial_taints : String
  pub http_proxy : Option String
  pub no_proxy : Option String
  pub container_runtime_config : String
  pub container_runtime_auth_config : String
  pub kubelet_feature_gates : Dict Bool
  pub rh_subscription : Dict String
  pub network_ip_family : String
  pub pause_image : String
  pub kubelet_config : KubeletConfig
  pub operating_system_config : OperatingSystemConfig
  pub bootstrap_config : BootstrapConfig
