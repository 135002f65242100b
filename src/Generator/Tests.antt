-- ===== src/Generator/Tests.antt =====
-- The generator, with a template engine that prints the first file's content.
use operating_system_manager.Prelude.{
  String, ◌<>◌, none, some, List, [], ◌∷◌, map, ◌==◌, ◌&&◌, not, ◌≡◌, ◌⊎◌, refl,
}
use operating_system_manager.Prelude.Int.{pos, sprint}
use operating_system_manager.Prelude.Text.{
  trim_space, trim_left, trim_right, keep_right, is_space, is_empty, split,
}
use operating_system_manager.Prelude.Result.{ok}
use operating_system_manager.Crd.{
  OscConfig, ProvisioningUtility, cloud_init, ignition, flatcar, ubuntu,
}
use operating_system_manager.Machine.{raw_spec}
use operating_system_manager.ProviderConfig.{
  zero_upgrade, zero_flatcar, load_common, load_flatcar, load_config, default_config,
}
use operating_system_manager.Finalizers.{contains}
use operating_system_manager.Osc.Tests.Objects.{workers}
use operating_system_manager.Generator.Provisioner.{
  get_provisioning_utility, flatcar_provisioner, flatcar_utility,
}
use operating_system_manager.Generator.Generate.{
  Library, fine, FileSpec, inline_of, file_spec, file_specs, padded, dedup_from,
  deduplicate_ssh_keys, get_service_name, run_cmds, add_service, last_or, generate_with, generate,
}
use operating_system_manager.Generator.Laws.{
  Distinct, deduplicate_ssh_keys-Distinct, generate-matches,
}

abbrev first_file : List FileSpec → String
first_file [] = ""
first_file (f ∷ fs) = f.permissions <> (" " <> f.content)

abbrev library : Library
library = record {
  decoders = record {
    strict_provider = λ raw. ok (record {
      operating_system = "";
      operating_system_spec = none;
      cloud_provider = raw;
      cloud_provider_spec = none;
      ssh_public_keys = [];
      network = none;
      overwrite_cloud_config = none;
    });
    flatcar_json = record { marshal = λ c. ""; unmarshal = λ raw. ok zero_flatcar };
  };
  common_json = record { marshal = λ c. ""; unmarshal = λ raw. ok zero_upgrade };
  base64 = λ s. "encoded " <> s;
  parse_template = λ t. ok t;
  execute = λ t u. ok (first_file u.files);
  parse_config = λ s. fine s;
  convert = λ s. fine s;
  marshal_ignition = λ s. ok s;
}

abbrev config : OscConfig
config = record {
  units = [];
  files =
      record {
        path = "/etc/hosts";
        permissions = pos 644;
        inline = some (record { encoding = "b64"; text = "hosts" });
      }
      ∷ [];
  user_ssh_keys = [];
  cloud_init_modules = none;
}

deduplicate_ssh_keys-Distinct_example :
    Distinct (deduplicate_ssh_keys (" a" ∷ "b" ∷ "" ∷ "a " ∷ []))
    × ((a : String)
        → contains (deduplicate_ssh_keys (" a" ∷ "b" ∷ "" ∷ "a " ∷ [])) a
          ≡ (contains (map trim_space (" a" ∷ "b" ∷ "" ∷ "a " ∷ [])) a && not (a == "")))
deduplicate_ssh_keys-Distinct_example = deduplicate_ssh_keys-Distinct (" a" ∷ "b" ∷ "" ∷ "a " ∷ [])

in_order : deduplicate_ssh_keys (" b" ∷ "a" ∷ "" ∷ "b " ∷ []) ≡ "b" ∷ "a" ∷ []
unfolding deduplicate_ssh_keys dedup_from contains trim_space trim_left trim_right keep_right
    is_space is_empty
in_order = refl

flatcar-ignition : get_provisioning_utility library.decoders flatcar (workers "aws") ≡ ok ignition
unfolding get_provisioning_utility flatcar_provisioner flatcar_utility load_flatcar load_config
    default_config raw_spec
flatcar-ignition = refl

generated :
    generate library config "cloud-init" ubuntu "aws" (workers "aws") "bootstrap"
    ≡ ok "0644 encoded hosts"
unfolding generate generate_with get_provisioning_utility file_specs inline_of file_spec padded
    sprint raw_spec load_common load_config default_config deduplicate_ssh_keys dedup_from
generated = refl

generate-matches_example :
    (p : ProvisioningUtility) × (get_provisioning_utility library.decoders ubuntu (workers "aws")
      ≡ ok p)
    × ((cloud_init ≡ "") ⊎ (cloud_init ≡ p))
    × (generate_with library config "cloud-init" ubuntu "aws" (workers "aws") "bootstrap" p
        ≡ ok "0644 encoded hosts")
generate-matches_example =
    generate-matches library config "cloud-init" ubuntu "aws" (workers "aws") "bootstrap"
      "0644 encoded hosts" generated

named_service : get_service_name "/etc/systemd/system/kubelet.service" ≡ "kubelet.service"
unfolding get_service_name last_or split
named_service = refl

abbrev file_at : String → FileSpec
file_at path = record { path = path; content = ""; encoding = "b64"; permissions = "0644" }

services_run :
    run_cmds (file_at "/etc/a.conf" ∷ file_at "/etc/systemd/system/kubelet.service" ∷ [])
    ≡ "kubelet.service" ∷ []
unfolding run_cmds add_service get_service_name last_or split
services_run = refl
