-- ===== src/Resources/Generate.antt =====
-- operating_system_config.go: GenerateOperatingSystemConfig, with the steps that it is made of.
use operating_system_manager.Prelude.{
  String, ◌<>◌, Bool, Option, none, some, List, [], ◌∷◌, ◌==◌, ◌&&◌, not, starts_with, len, nat_eq,
  if◌then◌else◌,
}
use operating_system_manager.Prelude.Dict.{Dict}
use operating_system_manager.Prelude.Result.{Result, ok, err, errorf, wrap, ◌>>=◌}
use operating_system_manager.Crd.{
  Osp, OspConfig, Osc, OscConfig, OscSpec, CloudInitModule, File, amzn2, flatcar, rhel, ubuntu,
  rockylinux,
}
use operating_system_manager.Machine.{
  MachineDeployment, ProviderConfig, NetworkConfig, Kubeconfig, raw_spec,
}
use operating_system_manager.ProviderConfig.{
  Json, UpgradeConfig, FlatcarConfig, RhelConfig, load_amzn2, load_flatcar, load_rhel, load_ubuntu,
  load_rockylinux, rh_subscription,
}
use operating_system_manager.ContainerRuntime.Config.{Config, engine}
use operating_system_manager.ContainerRuntime.Hosts
use operating_system_manager.ContainerRuntime.Hosts.{containerd_config, registry_host_configs}
use operating_system_manager.CloudProvider.{
  Versions, get_cloud_config, kubelet_cloud_provider_config,
}
use operating_system_manager.Osc.Names.{provisioning_cloud_config}
use operating_system_manager.Osc.Api.{Settings, OscRequest}
use operating_system_manager.Osc.Configs.{first_cluster}
use operating_system_manager.Resources.Data.{
  FilesData, KubeletConfig, BootstrapConfig, OperatingSystemConfig, zero_operating_system,
}
use operating_system_manager.Resources.Kubelet.{KubeletKeys, get_kubelet_configs}
use operating_system_manager.Resources.Files.{Engine, render_osp_files}

-- The packages outside the repository that the generation calls.
pub record Tools : Type 1 where
  pub engine : Engine
  pub hosts : Hosts.Library
  pub keys : KubeletKeys
  pub versions : Versions
  -- StrictUnmarshal of a provider configuration
  pub strict_provider : String → Result ProviderConfig
  -- clientcmd.Write
  pub write_kubeconfig : Kubeconfig → Result String
  -- CloudConfigSecretNamePattern at a name, a namespace and a type
  pub secret_name : String → String → String → String
  -- NetworkConfig.GetIPFamily and NetworkConfig.IsStaticIPConfig, which take a nil pointer
  pub ip_family : Option NetworkConfig → String
  pub is_static_ip : Option NetworkConfig → Bool
  pub upgrade_json : Json UpgradeConfig
  pub flatcar_json : Json FlatcarConfig
  pub rhel_json : Json RhelConfig

unfoldable pub unless_blank : String → Option String → String
unless_blank old none = old
unless_blank old (some new) = if nat_eq (len new) 0 then old else new

-- The container runtime's configuration with the kubelet's settings for log files.
unfoldable pub with_kubelet_logs : KubeletConfig → Config → Config
with_kubelet_logs kubelet config = record config {
  container_log_max_size =
      unless_blank config.container_log_max_size kubelet.container_log_max_size;
  container_log_max_files =
      unless_blank config.container_log_max_files kubelet.container_log_max_files;
}

unfoldable pub some_unless_blank : String → Option String
some_unless_blank s = if nat_eq (len s) 0 then none else some s

-- CloudInitModules with the subscription, on modules that may be nil
unfoldable pub with_subscription : Dict String → Option CloudInitModule → CloudInitModule
with_subscription subscription none = record {
  boot_cmd = [];
  rh_subscription = subscription;
  run_cmd = [];
  yum_repos = [];
  yum_repo_dir = "";
}
with_subscription subscription (some modules) = record modules { rh_subscription = subscription }

unfoldable pub subscribed : Dict String → OspConfig → OspConfig
subscribed subscription config = record config {
  cloud_init_modules = some (with_subscription subscription config.cloud_init_modules);
}

-- configureRHELSubscription: the profile that it leaves
unfoldable pub configure_rhel_subscription : ProviderConfig → Osp → FilesData → Osp
configure_rhel_subscription config osp d =
    if config.operating_system == rhel
    then record osp {
      spec = record osp.spec {
        bootstrap_config =
            subscribed (rh_subscription d.operating_system_config.rhel_config)
              osp.spec.bootstrap_config;
        provisioning_config =
            subscribed (rh_subscription d.operating_system_config.rhel_config)
              osp.spec.provisioning_config;
      };
    }
    else osp

unfoldable pub osc_config : ProviderConfig → OspConfig → OspConfig → List File → OscConfig
osc_config config original changed files = record {
  units = original.units;
  files = files;
  user_ssh_keys = config.ssh_public_keys;
  cloud_init_modules = changed.cloud_init_modules;
}

-- buildOSCSpec
unfoldable pub build_osc_spec : Osp → Osp → ProviderConfig → List File → List File → OscSpec
build_osc_spec original osp config bootstrapping provisioning = record {
  os_name = original.spec.os_name;
  os_version = original.spec.os_version;
  cloud_provider = record { name = config.cloud_provider; spec = config.cloud_provider_spec };
  bootstrap_config =
      osc_config config original.spec.bootstrap_config osp.spec.bootstrap_config bootstrapping;
  provisioning_config =
      osc_config config original.spec.provisioning_config osp.spec.provisioning_config provisioning;
  provisioning_utility = "";
}

-- parseProviderConfig, on the raw provider spec
unfoldable pub decode_raw : (String → Result ProviderConfig) → String → Result ProviderConfig
decode_raw strict_provider raw =
    if nat_eq (len raw) 0
    then err (errorf "providerSpec cannot be empty" [])
    else wrap "failed to decode provider configs: %w" [] (strict_provider raw)

module _ (T : Tools) where
  -- parseProviderConfig
  unfoldable pub parse_provider_config : MachineDeployment → Result ProviderConfig
  parse_provider_config md = raw_spec md.provider_spec >>= decode_raw T.strict_provider

  -- prepareContainerRuntimeConfig: the configuration, its credentials, and the hosts files
  unfoldable pub prepare_container_runtime_config :
      MachineDeployment → Config → Result (String × String × Dict String)
  prepare_container_runtime_config md config =
      get_kubelet_configs T.keys md.annotations >>= λ kubelet.
      let eng = engine (with_kubelet_logs kubelet config) in
      wrap "failed to generate container runtime config: %w" [] (containerd_config T.hosts eng)
      >>= λ cr_config.
          wrap "failed to generate registry host configs: %w" [] (registry_host_configs T.hosts eng)
          >>= λ hosts. ok (cr_config, "", hosts)

  -- prepareBootstrapConfig
  unfoldable pub prepare_bootstrap_config :
      MachineDeployment → Kubeconfig → String → String → Result (BootstrapConfig × String)
  prepare_bootstrap_config md kubeconfig kubeconfig_name token =
      wrap "error writing kubeconfig: %w" [] (T.write_kubeconfig kubeconfig) >>= λ text.
      first_cluster kubeconfig.clusters >>= λ cluster. ok (
        record {
          token = token;
          server_url = cluster.server;
          secret_name = T.secret_name md.name md.namespace provisioning_cloud_config;
          bootstrap_kubeconfig_secret_name = kubeconfig_name;
        },
        text,
      )

  unfoldable pub cloud_config_of : Option String → Bool → ProviderConfig → String → Result String
  cloud_config_of none external config kubelet_version =
      wrap "failed to fetch cloud-config: %w" []
        (get_cloud_config T.versions external config kubelet_version)
  cloud_config_of (some text) external config kubelet_version = ok text

  -- prepareCloudProviderConfig: the cloud configuration, in-tree, and external
  unfoldable pub prepare_cloud_provider_config :
      ProviderConfig → String → Bool → Result (String × Bool × Bool)
  prepare_cloud_provider_config config kubelet_version is_external =
      let (in_tree, external) = kubelet_cloud_provider_config config.cloud_provider is_external in
      cloud_config_of config.overwrite_cloud_config external config kubelet_version >>= λ text.
      ok (text, in_tree, external)

  -- formatKubeletVersion
  unfoldable pub format_kubelet_version : String → Result String
  format_kubelet_version version =
      wrap "invalid kubelet version: %w" [] (T.versions.new_version version) >>= λ v.
      let text = T.versions.show v in ok (if starts_with text "v" then text else "v" <> text)

  -- setOperatingSystemConfig, on the configurations of the operating systems
  unfoldable pub set_operating_system_config :
      String → Option String → OperatingSystemConfig → Result OperatingSystemConfig
  set_operating_system_config os spec d =
      if os == amzn2
      then (load_amzn2 T.upgrade_json spec >>= λ c. ok (record d { amazon_linux_config = c }))
      else if os == flatcar
      then (load_flatcar T.flatcar_json spec >>= λ c. ok (record d { flatcar_config = c }))
      else if os == rhel
      then (load_rhel T.rhel_json spec >>= λ c. ok (record d { rhel_config = c }))
      else if os == ubuntu
      then (load_ubuntu T.upgrade_json spec >>= λ c. ok (record d { ubuntu_config = c }))
      else if os == rockylinux
      then (load_rockylinux T.upgrade_json spec >>= λ c. ok (record d { rocky_linux_config = c }))
      else err (errorf "unknown OperatingSystem" [])

  -- buildFilesData; `cr` and `cloud` are the results of the two steps before it
  module _ (kube_version : String) (r : Settings) (cloud : String × Bool × Bool)
      (config : ProviderConfig) (cr : String × String × Dict String) (kubeconfig : String)
      (bc : BootstrapConfig) where
    unfoldable pub files_data : KubeletConfig → OperatingSystemConfig → FilesData
    files_data kubelet os = record {
      kube_version = kube_version;
      kubelet_configuration = "";
      kubelet_systemd_unit = "";
      bootstrap_kubeconfig = kubeconfig;
      in_tree_ccm_available = cloud.1;
      cni_version = "";
      cluster_dns_ips = r.cluster_dns_ips;
      kubernetes_ca_cert = r.ca_cert;
      host_ca_cert = r.host_ca_cert;
      server_address = "";
      cloud_config = cloud.0;
      container_runtime = r.container_runtime;
      cloud_provider_name = config.cloud_provider;
      network_config = config.network;
      external_cloud_provider = cloud.2;
      initial_taints = r.initial_taints;
      http_proxy = some_unless_blank r.node_http_proxy;
      no_proxy = some_unless_blank r.node_no_proxy;
      container_runtime_config = cr.0;
      container_runtime_auth_config = cr.1;
      kubelet_feature_gates = r.kubelet_feature_gates;
      rh_subscription = [];
      network_ip_family = T.ip_family config.network;
      pause_image = r.container_runtime_config.sandbox_image;
      kubelet_config = kubelet;
      operating_system_config = os;
      bootstrap_config = bc;
    }

    unfoldable pub build_files_data : Dict String → Result FilesData
    build_files_data annotations = get_kubelet_configs T.keys annotations >>= λ kubelet.
        if T.is_static_ip config.network && not (config.operating_system == flatcar)
        then err
            (errorf "static IP config is not supported with: %s" (config.operating_system ∷ []))
        else wrap "failed to add operating system spec: %w" [] (
            set_operating_system_config config.operating_system config.operating_system_spec
              zero_operating_system)
          >>= λ os. ok (files_data kubelet os)

  -- The last steps, on the data of the templates.
  unfoldable pub render_osc :
      OscRequest → Settings → ProviderConfig → Dict String → FilesData → Result Osc
  render_osc q r config hosts d =
      let osp = configure_rhel_subscription config q.osp d in
      render_osp_files T.engine d T.hosts.sort_strings osp r.container_runtime hosts >>= λ files.
      ok (record {
        name = q.osc_name;
        namespace = r.namespace;
        annotations = [];
        spec = build_osc_spec q.osp osp config files.0 files.1;
      })

  -- GenerateOperatingSystemConfig
  unfoldable pub generate_operating_system_config : OscRequest → Settings → Result Osc
  generate_operating_system_config q r = parse_provider_config q.md >>= λ config.
      prepare_container_runtime_config q.md r.container_runtime_config >>= λ cr.
      prepare_bootstrap_config q.md q.bootstrap_kubeconfig q.bootstrap_kubeconfig_name q.token
      >>= λ bc.
          prepare_cloud_provider_config config q.md.kubelet_version r.external_cloud_provider
          >>= λ cloud. format_kubelet_version q.md.kubelet_version >>= λ kube_version.
              build_files_data kube_version r cloud config cr bc.1 bc.0 q.md.annotations >>= λ d.
              render_osc q r config cr.2 d
