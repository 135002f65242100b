-- ===== src/Program/Tests.antt =====
-- The whole program, on concrete objects.
use operating_system_manager.Prelude.{false, none, some, [], ◌∷◌, ◌≡◌, ◌≢◌, refl, arith, eq_iff}
use operating_system_manager.Prelude.Text.{before, replace_all, replace_from}
use operating_system_manager.Prelude.Dict.{lookup, insert, keys, value, value_or_empty}
use operating_system_manager.Prelude.Result.{Result, ok, err, api, not_found, is_not_found}
use operating_system_manager.Prelude.Exec.{attempt, wrap, ◌>>=◌}
use operating_system_manager.Machine.{key_eq, raw_spec, Secret}
use operating_system_manager.ProviderConfig.{
  load_ubuntu, load_common, load_config, default_config, zero_upgrade, zero_flatcar,
}
use operating_system_manager.Finalizers.{add_finalizer, has_finalizer, has_all, contains}
use operating_system_manager.ContainerRuntime.Config.{engine}
use operating_system_manager.ContainerRuntime.Flags.{Credentials}
use operating_system_manager.ContainerRuntime.Hosts.{
  containerd_config, config_manifest, credential_configs, registry_host_configs,
  build_registry_host_configs, add_mirrors, add_insecure, write_hosts, config_or_new, is_skipped,
  hosts_config, hosts_path, registry_dir, registry_host, is_wildcard, server_url, add_hosts,
}
use operating_system_manager.Generator.Provisioner.{get_provisioning_utility}
use operating_system_manager.Generator.Generate
use operating_system_manager.Generator.Generate.{
  generate, generate_with, file_specs, file_spec, inline_of, get_user_data_template,
  deduplicate_ssh_keys, dedup_from,
}
use operating_system_manager.CloudProvider.{get_cloud_config, kubelet_cloud_provider_config, one_of}
use operating_system_manager.Osc.Names.{osc_name, machine_deployment_key}
use operating_system_manager.Osc.Secrets.{
  generate_cloud_config_secret, calculate_annotations_hash, osc_rotation_annotations, secret_key_of,
  create_cloud_config_secret, ensure_cloud_config_secret,
}
use operating_system_manager.Osc.Configs.{
  osc_key_of, first_cluster, osc_utility, rotate_unless_current, handle_rotation, check_utility,
  with_credentials, edge_script_if, annotated, create_osc, reconcile_configs,
}
use operating_system_manager.Osc.Reconciler.{
  reconcile_request, with_finalizer, reconcile_found, supports_provider, check_provider,
  validate_machine_deployment, osp_key, osp_or_error, fetch_osp, event_on_error, check_osp,
  reconcile_secrets, finish, reconcile_with, reconcile,
}
use operating_system_manager.Osc.Settled.{IsSettled}
use operating_system_manager.Osc.Current.{KeysDiffer}
use operating_system_manager.Osc.Requests.{prepared}
use operating_system_manager.Osc.Api.{Parts}
use operating_system_manager.Osc.Tests.{sdk, sets, settings}
use operating_system_manager.Osc.Tests.Objects.{
  workers, osc_current, osp_ubuntu, secret_old, joining, with_joining, leaving_at,
}
use operating_system_manager.ClusterInfo.{
  get_kubeconfig, get_kubeconfig_from_config_map, load_if_found, or_from_slices,
}
use operating_system_manager.Bootstrap.Cluster.{Options}
use operating_system_manager.Bootstrap.Token.{
  format_token, token_secret, at_most_one, get_secret_if_exists, create_token, token_at,
  create_bootstrap_token,
}
use operating_system_manager.Bootstrap.Kubeconfig.{
  last_key, remove, override_if_set, rename_cluster, renamed_clusters, kubeconfig_for,
  kubeconfig_key, token_in, extract_api_server_token, store_kubeconfig, generate_kubeconfig,
  get_token, create_bootstrap_kubeconfig,
}
use operating_system_manager.Bootstrap.Tests.{
  World, filing, filing-IsLawful, cluster, cluster-IsLawful, with_secret, with_oscs,
}
use operating_system_manager.Resources.Kubelet.{
  add_configs, get_kubelet_config_map, get_kubelet_configs,
}
use operating_system_manager.Resources.Files.{
  runtime_files, select_additional_files, runtime_templates, insert_all, templates_to_render,
  hosts_files, inject_registry_host_configs, render_templates, select_additional_templates,
  populate_files_list, rendered_files, render_osp_files,
}
use operating_system_manager.Resources.Generate.{
  unless_blank, with_kubelet_logs, some_unless_blank, configure_rhel_subscription, osc_config,
  build_osc_spec, decode_raw, parse_provider_config, prepare_container_runtime_config,
  prepare_bootstrap_config, cloud_config_of, prepare_cloud_provider_config, format_kubelet_version,
  set_operating_system_config, files_data, build_files_data, render_osc,
  generate_operating_system_config,
}
use operating_system_manager.Resources.Tests.{tools, ubuntu_on}
use operating_system_manager.Program.{program_parts}
use operating_system_manager.Program.Settled.{program-IsSettled}
use operating_system_manager.Program.Kept.{program-immutable, program-secrets, program-stuck}
use operating_system_manager.Osc.Names.{script_secret_name}
use operating_system_manager.Osc.Api.Laws.{set_at, secret_key}
use operating_system_manager.Osc.Current.{IsMarked}
use operating_system_manager.Osc.Immutable.{Holds}
use operating_system_manager.Osc.Frame.{SecretThere}
use operating_system_manager.Osc.Edge.{LeftBehind}

abbrev options : Options
options = record { service_account = none; override_server = ""; ca_cert = "ca" }

abbrev credentials : Credentials
credentials = record { docker_config = λ text. ok []; auth_config = λ text. err (api not_found) }

abbrev library : Generate.Library
library = record {
  decoders = record {
    strict_provider = λ raw. ok (ubuntu_on raw);
    flatcar_json = record { marshal = λ c. "{}"; unmarshal = λ raw. ok zero_flatcar };
  };
  common_json = record { marshal = λ c. "{}"; unmarshal = λ raw. ok zero_upgrade };
  base64 = λ s. s;
  parse_template = λ t. ok "user data";
  execute = λ t u. ok t;
  parse_config = λ s. Generate.fine s;
  convert = λ s. Generate.fine s;
  marshal_ignition = λ s. ok s;
}

-- The token with which a new node asks for its configuration.
abbrev getter : Secret
getter = record {
  name = "cloud-init-getter-token";
  namespace = "cloud-init-settings";
  annotations = [];
  labels = [];
  kind = "Opaque";
  immutable = false;
  entries = ("token", "getter") ∷ [];
}

abbrev world : World
world = with_secret getter (with_joining, λ k x h. cc)

abbrev parts : Parts World
parts = program_parts filing cluster options credentials tools library

abbrev handled : Result (Unit {0}) × World
handled = reconcile_request filing sdk sets parts settings leaving_at world

differ : KeysDiffer sdk
differ = (
  λ h. ground (arith, (eq_iff "k8c.io/machine-deployment-revision" "k8c.io/osp-version").1 h),
  λ h.
      ground (arith, (eq_iff "k8c.io/machine-deployment-revision" "k8c.io/mdannotations-hash").1 h),
)

stored : world.0.mds leaving_at ≡ some joining
unfolding key_eq
stored = refl

handled_ok : handled.0 ≡ ok tt
unfolding program_parts reconcile reconcile_with fetch_osp osp_or_error osp_key check_osp
    event_on_error supports_provider check_provider validate_machine_deployment raw_spec
    handle_rotation rotate_unless_current finish reconcile_configs create_osc check_utility
    with_credentials edge_script_if annotated osc_utility reconcile_secrets
    ensure_cloud_config_secret create_cloud_config_secret secret_key_of generate_cloud_config_secret
    calculate_annotations_hash osc_rotation_annotations osc_key_of osc_name machine_deployment_key
    attempt wrap ◌>>=◌ value value_or_empty lookup insert key_eq is_not_found reconcile_request
    reconcile_found with_finalizer has_finalizer has_all contains add_finalizer
    create_bootstrap_kubeconfig get_token generate_kubeconfig get_kubeconfig
    get_kubeconfig_from_config_map load_if_found or_from_slices kubeconfig_for renamed_clusters
    rename_cluster last_key remove override_if_set kubeconfig_key store_kubeconfig
    create_bootstrap_token get_secret_if_exists at_most_one token_at create_token token_secret
    format_token extract_api_server_token token_in get_provisioning_utility
    generate_operating_system_config parse_provider_config decode_raw
    prepare_container_runtime_config get_kubelet_configs get_kubelet_config_map add_configs
    with_kubelet_logs unless_blank engine containerd_config config_manifest credential_configs
    registry_host_configs build_registry_host_configs add_mirrors add_insecure write_hosts
    config_or_new is_skipped hosts_config hosts_path registry_dir registry_host is_wildcard
    server_url add_hosts before replace_all replace_from prepare_bootstrap_config first_cluster
    prepare_cloud_provider_config cloud_config_of get_cloud_config kubelet_cloud_provider_config
    one_of format_kubelet_version build_files_data files_data some_unless_blank
    set_operating_system_config load_ubuntu load_common load_config default_config generate_with
    render_osc configure_rhel_subscription render_osp_files rendered_files
    select_additional_templates templates_to_render insert_all runtime_templates render_templates
    select_additional_files runtime_files populate_files_list inject_registry_host_configs
    hosts_files build_osc_spec osc_config keys generate file_specs get_user_data_template
    deduplicate_ssh_keys dedup_from inline_of
handled_ok = refl

program-IsSettled_example :
    IsSettled sdk settings
      (prepared sets joining)
      (osp_key filing sdk sets parts settings (prepared sets joining))
      world.0
      handled.1.0
program-IsSettled_example =
    program-IsSettled filing filing-IsLawful cluster cluster-IsLawful options credentials tools
      library sdk sets settings differ leaving_at joining refl world stored handled_ok

hashed : calculate_annotations_hash sdk (workers "aws").annotations ≡ ok "annotations"
unfolding calculate_annotations_hash
hashed = refl

marked : IsMarked sdk (workers "aws") osp_ubuntu "annotations" osc_current
unfolding value value_or_empty lookup
marked = (refl, refl, refl)

-- The OSC of the MachineDeployment is current, and one Secret is stored.
abbrev current : World
current =
    with_oscs (set_at (osc_key_of settings (workers "aws")) (some osc_current) (λ k. none))
      (with_secret secret_old (with_joining, λ k x h. cc))

osp-named :
    current.0.osps (osp_key filing sdk sets parts settings (workers "aws")) ≡ some osp_ubuntu
unfolding osp_key key_eq value value_or_empty lookup
osp-named = refl

current-Holds :
    Holds (osc_key_of settings (workers "aws")) osc_current (secret_key secret_old) current.0
unfolding osc_key_of osc_name key_eq
current-Holds = (refl, λ h. cc)

program-immutable_example :
    Holds
      (osc_key_of settings (workers "aws"))
      osc_current
      (secret_key secret_old)
      (reconcile filing sdk sets parts settings (workers "aws") current).1.0
program-immutable_example =
    program-immutable filing filing-IsLawful cluster cluster-IsLawful options credentials tools
      library sdk sets settings (workers "aws") osp_ubuntu "annotations" osc_current
      (secret_key secret_old) hashed marked current osp-named current-Holds

getter-there : SecretThere (secret_key getter) world.0
unfolding key_eq
getter-there = λ h. cc

program-secrets_example :
    SecretThere
      (secret_key getter)
      (reconcile filing sdk sets parts settings (workers "aws") world).1.0
program-secrets_example =
    program-secrets filing filing-IsLawful cluster cluster-IsLawful options credentials tools
      library sdk sets settings (workers "aws") (secret_key getter) world refl getter-there

-- The Secret of an edge machine's script, of an earlier run.
abbrev script : Secret
script = record secret_old { name = script_secret_name (workers "edge") }

edge-decoded : parse_provider_config tools (workers "edge") ≡ ok (ubuntu_on "edge")
unfolding parse_provider_config decode_raw raw_spec
edge-decoded = refl

script-LeftBehind : LeftBehind settings (workers "edge") (with_secret script world).0
unfolding key_eq script_secret_name
script-LeftBehind = (refl, λ h. cc)

program-stuck_example :
    (reconcile filing sdk sets parts settings (workers "edge") (with_secret script world)).0 ≢ ok tt
program-stuck_example =
    program-stuck filing filing-IsLawful cluster cluster-IsLawful options credentials tools library
      sdk sets settings (workers "edge") (ubuntu_on "edge") edge-decoded refl
      (with_secret script world) script-LeftBehind
