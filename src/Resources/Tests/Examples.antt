-- ===== src/Resources/Tests/Examples.antt =====
-- A generated OSC, and kubelet settings that are read.
use operating_system_manager.Prelude.{String, some, [], ◌∷◌, ◌≡◌, refl, true}
use operating_system_manager.Prelude.Int.{pos, negsuc}
use operating_system_manager.Prelude.ParseInt.{
  parse_int32, parse_uint, parse_digits, in_positive, in_negative, negate,
}
use operating_system_manager.Prelude.Text.{
  split_2, cons_first, before, is_digit, replace_all, replace_from,
}
use operating_system_manager.Prelude.Dict.{Dict, IsMap, lookup, insert, keys, value, value_or_empty}
use operating_system_manager.Prelude.Result.{Result, ok, err}
use operating_system_manager.Crd.{Osc}
use operating_system_manager.Machine.{raw_spec}
use operating_system_manager.ProviderConfig.{load_ubuntu, load_config, default_config}
use operating_system_manager.ContainerRuntime.Config.{engine}
use operating_system_manager.ContainerRuntime.Hosts.{
  containerd_config, config_manifest, credential_configs, registry_host_configs,
  build_registry_host_configs, add_mirrors, add_insecure, write_hosts, config_or_new, is_skipped,
  hosts_config, hosts_path, registry_dir, registry_host, is_wildcard, server_url, add_hosts,
}
use operating_system_manager.CloudProvider.{get_cloud_config, kubelet_cloud_provider_config, one_of}
use operating_system_manager.Osc.Configs.{first_cluster}
use operating_system_manager.Osc.Tests.{settings, osc_of}
use operating_system_manager.Resources.Data.{KubeletConfig, zero_kubelet}
use operating_system_manager.Resources.Kubelet.{
  insert_named, add_configs, get_kubelet_config_map, parsed, key_values, read_kubelet_configs,
  get_kubelet_configs, get_key_value_map,
}
use operating_system_manager.Resources.Files.{
  runtime_files, select_additional_files, runtime_templates, insert_all, templates_to_render,
  add_templating_sequence, or_default, inline_data, populated, hosts_files,
  inject_registry_host_configs, parse_all, render_templates, select_additional_templates,
  populate_file, populate_files_list, rendered_files, render_osp_files,
}
use operating_system_manager.Resources.Generate.{
  unless_blank, with_kubelet_logs, some_unless_blank, configure_rhel_subscription, osc_config,
  build_osc_spec, decode_raw, parse_provider_config, prepare_container_runtime_config,
  prepare_bootstrap_config, cloud_config_of, prepare_cloud_provider_config, format_kubelet_version,
  set_operating_system_config, files_data, build_files_data, render_osc,
  generate_operating_system_config,
}
use operating_system_manager.Resources.Laws.{Generates, IsSupported, generate-IsSupported}
use operating_system_manager.Resources.FilesLaws.{HasFiles, generate-HasFiles}
use operating_system_manager.Resources.KubeletLaws.{HasNumbers, get_kubelet_configs-HasNumbers}
use operating_system_manager.Resources.PairsLaws.{
  AreWritable, lacks, show_pairs, lookup-get_key_value_map,
}
use operating_system_manager.Resources.Tests.{tools, request}
use operating_system_manager.Resources.Tests

abbrev osc_or_blank : Result Osc → Osc
osc_or_blank (ok osc) = osc
osc_or_blank (err e) = osc_of "" "" ""

abbrev generated : Osc
generated = osc_or_blank (generate_operating_system_config tools request settings)

generated_ok : generate_operating_system_config tools request settings ≡ ok generated
unfolding generate_operating_system_config parse_provider_config raw_spec decode_raw
    prepare_container_runtime_config get_kubelet_configs get_kubelet_config_map add_configs
    with_kubelet_logs unless_blank engine containerd_config config_manifest credential_configs
    registry_host_configs build_registry_host_configs add_mirrors add_insecure write_hosts
    config_or_new is_skipped hosts_config hosts_path registry_dir registry_host is_wildcard
    server_url add_hosts before replace_all replace_from prepare_bootstrap_config first_cluster
    prepare_cloud_provider_config cloud_config_of get_cloud_config kubelet_cloud_provider_config
    one_of format_kubelet_version build_files_data files_data some_unless_blank
    set_operating_system_config load_ubuntu load_config default_config render_osc
    configure_rhel_subscription render_osp_files rendered_files select_additional_templates
    templates_to_render insert_all runtime_templates render_templates add_templating_sequence
    select_additional_files runtime_files populate_files_list populate_file inline_data parse_all
    populated or_default inject_registry_host_configs hosts_files build_osc_spec osc_config keys
    value value_or_empty lookup insert
generated_ok = refl

generate-HasFiles_example :
    (g : Generates tools request settings generated) × HasFiles tools.engine g.files_data request
      settings g.runtime.2
      (keys g.runtime.2)
      generated
generate-HasFiles_example = generate-HasFiles tools request settings generated_ok

generate-IsSupported_example : IsSupported tools request generated
generate-IsSupported_example = generate-IsSupported tools request settings generated_ok

abbrev annotations : Dict String
annotations =
    ("v1.kubelet-config.machine-controller.kubermatic.io/MaxPods", "110")
    ∷ ("v1.kubelet-config.machine-controller.kubermatic.io/ImageGCLowThresholdPercent", "-1")
    ∷ ("other/MaxPods", "x")
    ∷ []

abbrev read : KubeletConfig
read = record zero_kubelet {
  max_pods = some (pos 110);
  image_gc_low_threshold_percent = some (negsuc 0);
}

settings_ok : get_kubelet_configs Tests.keys annotations ≡ ok read
unfolding get_kubelet_configs get_kubelet_config_map add_configs insert_named read_kubelet_configs
    parsed key_values parse_int32 parse_uint parse_digits is_digit in_positive in_negative negate
    split_2 cons_first lookup insert
settings_ok = refl

get_kubelet_configs-HasNumbers_example :
    HasNumbers Tests.keys (get_kubelet_config_map Tests.keys annotations) read
get_kubelet_configs-HasNumbers_example =
    get_kubelet_configs-HasNumbers Tests.keys annotations settings_ok

abbrev reserved : Dict String
reserved = ("cpu", "200m") ∷ ("memory", "200Mi") ∷ []

writable : AreWritable 61 reserved
unfolding lacks
writable = (refl, refl, refl, (refl, refl, refl, tt))

distinct : IsMap reserved
unfolding lookup
distinct = (refl, (refl, tt))

plain : lacks 44 "=" ≡ true
unfolding lacks
plain = refl

lookup-get_key_value_map_example :
    lookup "memory" (get_key_value_map (show_pairs "=" reserved) 61) ≡ lookup "memory" reserved
lookup-get_key_value_map_example =
    lookup-get_key_value_map "=" 61 (record { character = "="; alone = refl; its_code = refl })
      plain reserved distinct writable "memory"
