-- ===== src/ContainerRuntime/Tests.antt =====
-- Flags, a configuration and hosts files, with simple stand-ins for the libraries.
use operating_system_manager.Prelude.{
  map, ◌&&◌, not, String, ◌<>◌, true, false, none, [], ◌∷◌, ◌++◌, ◌≡◌, refl, ◌==◌, if◌then◌else◌,
}
use operating_system_manager.Prelude.Text.{
  split, split_2, trim_space, trim_left, trim_right, keep_right, is_space, is_empty, before,
  replace_all, replace_from,
}
use operating_system_manager.Prelude.Dict.{Dict, lookup, insert, keys, IsMap}
use operating_system_manager.Prelude.Result.{Result, ok}
use operating_system_manager.Finalizers.{contains}
use operating_system_manager.ContainerRuntime.Config.{
  Config, Containerd, zero_config, get, apply_opts, with_insecure_registries, with_registry_mirrors,
  with_sandbox_image, with_containerd_version, with_device_ownership,
}
use operating_system_manager.ContainerRuntime.Flags.{
  MirrorFlags, list_at, list_or_nil, append_at, set_flag, flags_string, flag_lines, sprint_items,
  Opts, trimmed, is_host_char, all_host_chars, match_parts, match_mirror, mirror_parts, with_scheme,
  add_mirror, add_mirror_flags, check_secret_ref, build_config,
}
use operating_system_manager.ContainerRuntime.FlagsLaws.{
  lacks, set_flag-joined, AllHttp, mirrors_for, build_config-mirrors,
}
use operating_system_manager.ContainerRuntime.Hosts.{
  Library, config_or_new, add_mirrors, add_insecure, docker_default, build_registry_host_configs,
  is_skipped, hosts_path, write_hosts, registry_host_configs, registry_dir, registry_host,
  is_wildcard, server_url, hosts_config, add_hosts,
}
use operating_system_manager.ContainerRuntime.HostsLaws.{
  mirrored, build_registry_host_configs-at, IsWritten, registry_host_configs-IsWritten,
}

abbrev any_url : String → Result (Unit {0})
any_url url = ok tt

no_equals : lacks "docker.io" ≡ true
unfolding lacks
no_equals = refl

set_flag-joined_example :
    (fl' : MirrorFlags) × (set_flag ("docker.io" <> ("=" <> "https://m.example")) [] ≡ ok fl')
    × (list_at "docker.io" fl' ≡ (
        if "docker.io" == "docker.io"
        then list_at "docker.io" [] ++ ("https://m.example" ∷ [])
        else list_at "docker.io" []))
set_flag-joined_example = set_flag-joined "docker.io" "https://m.example" "docker.io" [] no_equals

abbrev opts : Opts
opts = record {
  container_runtime = "containerd";
  containerd_version = "2.0";
  insecure_registries = "10.0.0.1:5000, ,*";
  registry_mirrors = "quay.io=mirror.example, docker.example";
  registry_credentials_secret = "kube-system/creds";
  pause_image = "";
  containerd_registry_mirrors = ("docker.io", "https://first.example" ∷ []) ∷ [];
  device_ownership_from_security_context = false;
}

abbrev built : Config
built = record zero_config {
  insecure_registries = "10.0.0.1:5000" ∷ "*" ∷ [];
  registry_mirrors =
      ("docker.io", "https://first.example" ∷ "https://docker.example" ∷ [])
      ∷ ("quay.io", "https://mirror.example" ∷ [])
      ∷ [];
  containerd_version = "2.0";
}

built-ok : build_config any_url opts ≡ ok built
unfolding build_config trimmed split trim_space trim_left trim_right keep_right is_space is_empty
    add_mirror_flags add_mirror match_mirror match_parts all_host_chars is_host_char mirror_parts
    with_scheme append_at list_at list_or_nil lookup insert split_2 before check_secret_ref get
    apply_opts with_insecure_registries with_registry_mirrors with_sandbox_image
    with_containerd_version with_device_ownership
built-ok = refl

build_config-mirrors_example :
    (list_at "docker.io" built.registry_mirrors
      ≡ list_at "docker.io" opts.containerd_registry_mirrors
        ++ mirrors_for "docker.io" (split 44 opts.registry_mirrors))
    × AllHttp (mirrors_for "docker.io" (split 44 opts.registry_mirrors))
    × ((a : String)
        → contains built.insecure_registries a
          ≡ (contains (map trim_space (split 44 opts.insecure_registries)) a && not (a == "")))
build_config-mirrors_example = build_config-mirrors any_url opts built "docker.io" built-ok

printed :
    flags_string (λ names. names) built.registry_mirrors
    ≡ "[docker.io=https://first.example docker.io=https://docker.example quay.io=https://mirror.example]"
unfolding flags_string flag_lines sprint_items list_at list_or_nil lookup keys
printed = refl

-- No URL is parsed, names are in order already, and a hosts file is its server.
abbrev plain : Library
plain = record {
  parse_url = λ s. none;
  query_has = λ q k. false;
  query_get = λ q k. "";
  query_unescape = λ s. none;
  parse_query = λ s. none;
  with_query = λ u q. u.text;
  query_del = λ q k. q;
  parse_bool = λ s. s == "true";
  sort_strings = λ xs. xs;
  encode_hosts = λ h. ok h.server;
  encode_manifest = λ m. ok m.version;
}

abbrev eng : Containerd
eng = record {
  insecure_registries = "10.0.0.1:5000" ∷ [];
  registry_mirrors = ("quay.io", "https://mirror.example" ∷ []) ∷ [];
  sandbox_image = "";
  registry_credentials = [];
  version = "2.0";
  device_ownership_from_security_context = false;
}

unique : IsMap eng.registry_mirrors
unfolding lookup
unique = (refl, tt)

build_registry_host_configs-at_example :
    ((config_or_new plain (lookup "quay.io" (build_registry_host_configs plain eng))).endpoints
      ≡ mirrored plain
          (lookup "quay.io" eng.registry_mirrors)
          (if "docker.io" == "quay.io" then docker_default plain else []))
    × ((config_or_new plain (lookup "quay.io" (build_registry_host_configs plain eng))).insecure
        ≡ contains eng.insecure_registries "quay.io")
build_registry_host_configs-at_example = build_registry_host_configs-at plain eng "quay.io" unique

abbrev files : Dict String
files =
    ("/etc/containerd/certs.d/docker.io/hosts.toml", "https://registry-1.docker.io")
    ∷ ("/etc/containerd/certs.d/quay.io/hosts.toml", "quay.io")
    ∷ ("/etc/containerd/certs.d/10.0.0.1:5000/hosts.toml", "10.0.0.1:5000")
    ∷ []

files-ok : registry_host_configs plain eng ≡ ok files
unfolding registry_host_configs build_registry_host_configs add_insecure add_mirrors config_or_new
    write_hosts is_skipped hosts_config add_hosts hosts_path registry_dir server_url registry_host
    is_wildcard before replace_all replace_from lookup insert keys
files-ok = refl

quay-used :
    is_skipped plain
      (config_or_new plain (lookup "quay.io" (build_registry_host_configs plain eng)))
    ≡ false
unfolding build_registry_host_configs add_insecure add_mirrors config_or_new is_skipped lookup
    insert
quay-used = refl

registry_host_configs-IsWritten_example :
    IsWritten plain (build_registry_host_configs plain eng) "quay.io" files
registry_host_configs-IsWritten_example =
    registry_host_configs-IsWritten plain eng files "quay.io" (λ xs a. refl) files-ok quay-used
