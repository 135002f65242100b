-- ===== src/Resources/Tests.antt =====
-- OSCs that are generated with concrete tools: a template is its text, and executes to it.
pub mod Examples
use operating_system_manager.Prelude.{
  String, ◌<>◌, Bool, true, false, Option, none, some, List, [], ◌∷◌, ◌==◌, ℕ,
}
use operating_system_manager.Prelude.Int.{ℤ, pos}
use operating_system_manager.Prelude.Result.{Result, ok, err, panicked}
use operating_system_manager.Crd.{Osp, File, OspConfig}
use operating_system_manager.Machine.{MachineDeployment, ProviderConfig, NetworkConfig}
use operating_system_manager.ProviderConfig.{zero_upgrade, zero_flatcar, zero_rhel}
use operating_system_manager.ContainerRuntime.Hosts
use operating_system_manager.CloudProvider.{Versions, Clouds}
use operating_system_manager.Osc.Api.{OscRequest}
use operating_system_manager.Osc.Tests.{kubeconfig}
use operating_system_manager.Osc.Tests.Objects.{osp_ubuntu, workers}
use operating_system_manager.Resources.Kubelet.{KubeletKeys}
use operating_system_manager.Resources.Files.{Engine}
use operating_system_manager.Resources.Generate.{Tools}

abbrev pub engine : Engine
engine = record {
  Template = String;
  parse_new = λ name text. ok text;
  parse_more = λ tmpl text. ok (tmpl <> text);
  execute = λ tmpl d. ok tmpl;
}

abbrev pub hosts : Hosts.Library
hosts = record {
  parse_url = λ s. none;
  query_has = λ q k. false;
  query_get = λ q k. "";
  query_unescape = λ s. none;
  parse_query = λ s. none;
  with_query = λ u q. u.text;
  query_del = λ q k. q;
  parse_bool = λ s. s == "true";
  sort_strings = λ xs. xs;
  encode_hosts = λ h. ok h.server;
  encode_manifest = λ m. ok m.version;
}

-- The names of the settings, of which the first ones are those of the kubelet's configuration.
abbrev pub keys : KubeletKeys
keys = record {
  annotation_prefix = "v1.kubelet-config";
  kube_reserved = "KubeReserved";
  system_reserved = "SystemReserved";
  eviction_hard = "EvictionHard";
  max_pods = "MaxPods";
  container_log_max_size = "ContainerLogMaxSize";
  container_log_max_files = "ContainerLogMaxFiles";
  image_gc_high_threshold_percent = "ImageGCHighThresholdPercent";
  image_gc_low_threshold_percent = "ImageGCLowThresholdPercent";
  image_minimum_gc_age = "ImageMinimumGCAge";
  image_maximum_gc_age = "ImageMaximumGCAge";
  parse_duration = λ text. ok (pos 0);
}

-- A value that is given in place is its text, and no other is found.
abbrev pub clouds : Clouds
clouds = record {
  resolver = record {
    get_string_value = λ v. ok v.value;
    get_string_value_or_env = λ v env. ok v.value;
    get_bool_value = λ v. ok (false, false);
    get_bool_value_or_env = λ v env. ok false;
    get_env = λ name. "";
    decode_base64 = λ text. err panicked;
    unmarshal_map = λ text. err panicked;
    parse_url = λ text. err panicked;
    semver_compare = λ constraint version. ok true;
  };
  aws_spec = λ text. ok (record {
    availability_zone = record { value = text; reference = "" };
    vpc_id = record { value = "vpc"; reference = "" };
    subnet_id = record { value = "subnet"; reference = "" };
  });
  azure_spec = λ text. err panicked;
  gce_spec = λ text. err panicked;
  kubevirt_spec = λ text. err panicked;
  openstack_spec = λ text. err panicked;
  vsphere_spec = λ text. err panicked;
  azure_json = λ c. err panicked;
  kubevirt_yaml = λ c. err panicked;
}

abbrev pub versions : Versions
versions = record {
  Version = String;
  new_version = λ text. ok text;
  show = λ v. v;
  at_least_1_29 = λ v. true;
  clouds = clouds;
}

-- An Ubuntu machine on the given cloud.
abbrev pub ubuntu_on : String → ProviderConfig
ubuntu_on provider = record {
  operating_system = "ubuntu";
  operating_system_spec = none;
  cloud_provider = provider;
  cloud_provider_spec = none;
  ssh_public_keys = "ssh-rsa a" ∷ [];
  network = none;
  overwrite_cloud_config = none;
}

abbrev pub is_some_network : Option NetworkConfig → Bool
is_some_network none = false
is_some_network (some n) = true

abbrev pub tools : Tools
tools = record {
  engine = engine;
  hosts = hosts;
  keys = keys;
  versions = versions;
  strict_provider = λ raw. ok (ubuntu_on raw);
  write_kubeconfig = λ config. ok "kubeconfig";
  secret_name = λ name namespace kind. name <> ("-" <> (namespace <> ("-" <> (kind <> "-config"))));
  ip_family = λ n. "IPv4";
  is_static_ip = is_some_network;
  upgrade_json = record { marshal = λ c. "{}"; unmarshal = λ t. ok zero_upgrade };
  flatcar_json = record { marshal = λ c. "{}"; unmarshal = λ t. ok zero_flatcar };
  rhel_json = record { marshal = λ c. "{}"; unmarshal = λ t. ok zero_rhel };
}

abbrev file_at : String → File
file_at path = record {
  path = path;
  permissions = pos 0;
  inline = some (record { encoding = "b64"; text = "text" });
}

-- A configuration with a file of its own, and one of the container runtime.
abbrev with_files : OspConfig
with_files = record {
  supported_container_runtimes =
      record {
        name = "containerd";
        files = file_at "/etc/crictl.yaml" ∷ [];
        templates = ("t", "x") ∷ [];
      }
      ∷ [];
  templates = ("s", "y") ∷ [];
  units = [];
  files = file_at "/opt/bin/setup" ∷ [];
  cloud_init_modules = none;
}

abbrev pub request : OscRequest
request = record {
  md = workers "aws";
  osp = record osp_ubuntu {
    spec = record osp_ubuntu.spec {
      bootstrap_config = with_files;
      provisioning_config = with_files;
    };
  };
  bootstrap_kubeconfig = kubeconfig;
  bootstrap_kubeconfig_name = "workers-kubelet-bootstrap-config";
  token = "token";
  osc_name = "workers-kube-system-config";
}
