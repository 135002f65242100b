-- ===== src/Generator/Generate.antt =====
-- pkg/generator/generator.go, convertor.go and util.go. Templates, base64 and the transpiler to
-- Ignition are parameters.
use operating_system_manager.Prelude.{
  String, ◌<>◌, Bool, false, Option, none, some, List, [], ◌∷◌, map, ◌==◌, ◌&&◌, not, if◌then◌else◌,
  len, nat_eq,
}
use operating_system_manager.Prelude.Int.{sprint}
use operating_system_manager.Prelude.Text.{trim_space, split, replace_all}
use operating_system_manager.Prelude.Result.{Result, ok, err, errorf, wrap, panicked, ◌>>=◌}
use operating_system_manager.Crd.{
  ProvisioningUtility, OperatingSystem, CloudProvider, OscConfig, File, FileContentInline,
  SystemdUnit, DropIn, CloudInitModule, cloud_init, ignition,
}
use operating_system_manager.Machine.{MachineDeployment, raw_spec}
use operating_system_manager.ProviderConfig.{Json, UpgradeConfig, load_common}
use operating_system_manager.Finalizers.{contains}
use operating_system_manager.Generator.Provisioner.{Decoders, get_provisioning_utility}
use operating_system_manager.Generator.Templates.{cloud_init_template, ignition_template}

pub record FileSpec : Type 0 where
  pub path : String
  pub content : String
  pub encoding : String
  pub permissions : String

pub record UnitSpec : Type 0 where
  pub name : String
  pub enable : Bool
  pub mask : Bool
  pub content : String
  pub drop_ins : List DropIn

-- The data of the template.
pub record UserData : Type 0 where
  pub files : List FileSpec
  pub units : List UnitSpec
  pub user_ssh_keys : List String
  pub cloud_init_modules : Option CloudInitModule
  pub cloud_provider_name : String
  pub operating_system : String
  pub configuration_type : String
  pub os_config : UpgradeConfig

-- What the transpiler answers: a text, or a report that stops it.
pub data Report : Type 0 where
  fine : String → Report
  stopped : String → Report

-- The libraries: base64, text/template with its parser and its execution, and the three steps of
-- the transpiler, with the configuration that it passes between them as a text.
pub record Library : Type 0 where
  pub decoders : Decoders
  pub common_json : Json UpgradeConfig
  pub base64 : String → String
  pub parse_template : String → Result String
  pub execute : String → UserData → Result String
  -- config.Parse: the configuration, or the report that is fatal
  pub parse_config : String → Report
  -- config.Convert, and its report where that has entries
  pub convert : String → Report
  pub marshal_ignition : String → Result String

-- The permissions as text, with a leading zero before three digits.
unfoldable pub padded : String → String
padded permissions = if nat_eq (len permissions) 3 then "0" <> permissions else permissions

-- `file.Content.Inline`, which is dereferenced
unfoldable pub inline_of : File → Result FileContentInline
inline_of file = elim file.inline [ none ↦ err panicked | some i ↦ ok i ]

-- The loop over the units.
unfoldable pub or_false : Option Bool → Bool
or_false none = false
or_false (some b) = b

unfoldable pub or_empty : Option String → String
or_empty none = ""
or_empty (some s) = s

unfoldable pub unit_spec : SystemdUnit → UnitSpec
unit_spec u = record {
  name = u.name;
  enable = or_false u.enable;
  mask = or_false u.mask;
  content = or_empty u.content;
  drop_ins = u.drop_ins;
}

-- The loop of deduplicateSSHKeys, with the keys that it has seen.
unfoldable pub dedup_from : List String → List String → List String
dedup_from seen [] = []
dedup_from seen (key ∷ keys) =
    let skipped = dedup_from seen keys in
    let rest = dedup_from (trim_space key ∷ seen) keys in
    if trim_space key == ""
    then skipped
    else if contains seen (trim_space key)
    then skipped
    else trim_space key ∷ rest

-- deduplicateSSHKeys
unfoldable pub deduplicate_ssh_keys : List String → List String
deduplicate_ssh_keys keys = dedup_from [] keys

-- getUserDataTemplate
unfoldable pub get_user_data_template : ProvisioningUtility → String → CloudProvider → String
get_user_data_template p md_name cloud_provider =
    if p == ignition
    then ignition_template
    else if cloud_provider == "edge"
    then replace_all cloud_init_template "<MACHINE_NAME>" md_name
    else cloud_init_template

-- The last of the parts of a path, or of a file name.
unfoldable pub last_or : String → List String → String
last_or d [] = d
last_or d (x ∷ xs) = last_or x xs

-- GetServiceName: the parts behind the last `/`, and behind its last dot
unfoldable pub get_service_name : String → String
get_service_name path =
    let file = last_or "" (split 47 path) in
    if last_or "" (split 46 file) == "service" then file else ""

-- The services among the paths, in front of those of the rest.
unfoldable pub add_service : String → List String → List String
add_service service services = if service == "" then services else service ∷ services

-- runCMDs, which the template for cloud-init calls
unfoldable pub run_cmds : List FileSpec → List String
run_cmds [] = []
run_cmds (spec ∷ specs) = add_service (get_service_name spec.path) (run_cmds specs)

unfoldable pub unless_stopped : String → Report → Result String
unless_stopped format (fine s) = ok s
unless_stopped format (stopped report) = err (errorf format (report ∷ []))

module _ (B : Library) where
  unfoldable pub file_spec : ProvisioningUtility → File → FileContentInline → FileSpec
  file_spec provisioner file i = record {
    path = file.path;
    content =
        (if i.encoding == "b64" && provisioner == cloud_init then B.base64 i.text else i.text);
    encoding = i.encoding;
    permissions = padded (sprint file.permissions);
  }

  -- The loop over the files.
  unfoldable pub file_specs : ProvisioningUtility → List File → Result (List FileSpec)
  file_specs provisioner [] = ok []
  file_specs provisioner (f ∷ fs) = inline_of f >>= λ i.
      file_specs provisioner fs >>= λ rest. ok (file_spec provisioner f i ∷ rest)

  -- toIgnition
  unfoldable pub to_ignition : String → Result String
  to_ignition s = do
    config ← unless_stopped "failed to validate coreos cloud config: %s" (B.parse_config s)
    converted ←
        unless_stopped "failed to convert container linux config to ignition: %s" (B.convert config)
    wrap "failed to marshal ignition config: %w" [] (B.marshal_ignition converted)

  module _ (config : OscConfig) (utility : ProvisioningUtility) (os : OperatingSystem)
      (provider : CloudProvider) (md : MachineDeployment) (secret_type : String) where
    -- The rest of Generate, with the utility that the machine gets.
    unfoldable pub generate_with : ProvisioningUtility → Result String
    generate_with provisioner = do
      files ← file_specs provisioner config.files
      raw ← raw_spec md.provider_spec
      provider_config ←
          wrap "failed to decode provider configs: %w" [] (B.decoders.strict_provider raw)
      os_config ← load_common B.common_json provider_config.operating_system_spec
      tmpl ←
          wrap "failed to parse user-data template: %w" []
            (B.parse_template (get_user_data_template provisioner md.name provider))
      text ← B.execute tmpl (record {
        files = files;
        units = map unit_spec config.units;
        user_ssh_keys = deduplicate_ssh_keys config.user_ssh_keys;
        cloud_init_modules = config.cloud_init_modules;
        cloud_provider_name = provider;
        operating_system = os;
        configuration_type = secret_type;
        os_config = os_config;
      })
      if provisioner == cloud_init then ok text else to_ignition text

    -- Generate
    unfoldable pub generate : Result String
    generate = do
      provisioner ←
          wrap "failed to determine provisioning utility: %w" []
            (get_provisioning_utility B.decoders os md)
      (if not (utility == "") && not (provisioner == utility)
          then err (
              errorf
                "specified provisioning utility %q is not supported by the OperatingSystemConfig"
                (utility ∷ []))
          else generate_with provisioner)
