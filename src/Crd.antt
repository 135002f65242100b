-- ===== src/Crd.antt =====
-- The API types of pkg/crd/osm/v1alpha1. Metadata holds the fields that the program reads or
-- writes. A pointer is an Option, a slice or a map that is nil is an empty one.
use operating_system_manager.Prelude.{String, Bool, Option, List}
use operating_system_manager.Prelude.Int.{ℤ}
use operating_system_manager.Prelude.Dict.{Dict}

abbrev pub OperatingSystem : Type 0
OperatingSystem = String

abbrev pub CloudProvider : Type 0
CloudProvider = String

abbrev pub ContainerRuntime : Type 0
ContainerRuntime = String

abbrev pub ProvisioningUtility : Type 0
ProvisioningUtility = String

abbrev pub flatcar : OperatingSystem
flatcar = "flatcar"

abbrev pub rhel : OperatingSystem
rhel = "rhel"

abbrev pub ubuntu : OperatingSystem
ubuntu = "ubuntu"

abbrev pub amzn2 : OperatingSystem
amzn2 = "amzn2"

abbrev pub rockylinux : OperatingSystem
rockylinux = "rockylinux"

abbrev pub cloud_init : ProvisioningUtility
cloud_init = "cloud-init"

abbrev pub ignition : ProvisioningUtility
ignition = "ignition"

pub record CloudProviderSpec : Type 0 where
  pub name : CloudProvider
  pub spec : Option String

pub record DropIn : Type 0 where
  pub name : String
  pub content : String

pub record SystemdUnit : Type 0 where
  pub name : String
  pub enable : Option Bool
  pub mask : Option Bool
  pub content : Option String
  pub drop_ins : List DropIn

pub record FileContentInline : Type 0 where
  pub encoding : String
  pub text : String

pub record File : Type 0 where
  pub path : String
  pub permissions : ℤ
  pub inline : Option FileContentInline

pub record ContainerRuntimeSpec : Type 0 where
  pub name : ContainerRuntime
  pub files : List File
  pub templates : Dict String

pub record CloudInitModule : Type 0 where
  pub boot_cmd : List String
  pub rh_subscription : Dict String
  pub run_cmd : List String
  pub yum_repos : Dict (Dict String)
  pub yum_repo_dir : String

pub record OspConfig : Type 0 where
  pub supported_container_runtimes : List ContainerRuntimeSpec
  pub templates : Dict String
  pub units : List SystemdUnit
  pub files : List File
  pub cloud_init_modules : Option CloudInitModule

pub record OspSpec : Type 0 where
  pub os_name : OperatingSystem
  pub os_version : String
  pub version : String
  pub supported_cloud_providers : List CloudProviderSpec
  pub bootstrap_config : OspConfig
  pub provisioning_config : OspConfig
  pub provisioning_utility : ProvisioningUtility

pub record Osp : Type 0 where
  pub name : String
  pub namespace : String
  pub spec : OspSpec

pub record OscConfig : Type 0 where
  pub units : List SystemdUnit
  pub files : List File
  pub user_ssh_keys : List String
  pub cloud_init_modules : Option CloudInitModule

pub record OscSpec : Type 0 where
  pub os_name : OperatingSystem
  pub os_version : String
  pub cloud_provider : CloudProviderSpec
  pub bootstrap_config : OscConfig
  pub provisioning_config : OscConfig
  pub provisioning_utility : ProvisioningUtility

pub record Osc : Type 0 where
  pub name : String
  pub namespace : String
  pub annotations : Dict String
  pub spec : OscSpec
