-- ===== src/CloudProvider/Tests.antt =====
-- Runs of the packages below pkg/cloudprovider, and concrete inputs of their theorems.
use operating_system_manager.Prelude.{
  String, ◌<>◌, true, false, none, some, [], ◌∷◌, ◌==◌, ◌≡◌, refl, if◌then◌else◌,
}
use operating_system_manager.Prelude.Dict.{value, value_or_empty, lookup}
use operating_system_manager.Prelude.Int.{sprint}
use operating_system_manager.Prelude.Result.{Result, ok}
use operating_system_manager.Machine.{ProviderConfig}
use operating_system_manager.CloudProvider.Resolver.{
  ConfigVarString, ConfigVarBool, Resolver, decode_spec, decode_raw_spec, render_config,
}
use operating_system_manager.CloudProvider.Ini.{escape, escape_chars, is_special, show_bool}
use operating_system_manager.CloudProvider.Ini.Laws.{is_one_line, read_quoted, read_quoted-escape}
use operating_system_manager.CloudProvider.Gce
use operating_system_manager.CloudProvider.Openstack
use operating_system_manager.CloudProvider.Vsphere

-- A value that is not given in place is that of the environment.
abbrev resolver : Resolver
resolver = record {
  get_string_value = λ v. ok v.value;
  get_string_value_or_env = λ v env. ok (if v.value == "" then env else v.value);
  get_bool_value = λ v. ok (false, false);
  get_bool_value_or_env = λ v env. ok false;
  get_env = λ name. "";
  decode_base64 = λ text. ok text;
  unmarshal_map = λ text. ok (("project_id", text) ∷ []);
  parse_url = λ url. ok (url, "443");
  semver_compare = λ constraint version. ok true;
}

abbrev text : String → ConfigVarString
text s = record { value = s; reference = "" }

abbrev unset : ConfigVarBool
unset = record { value = none; reference = "" }

abbrev machine : ProviderConfig
machine = record {
  operating_system = "ubuntu";
  operating_system_spec = none;
  cloud_provider = "gce";
  cloud_provider_spec = some "{}";
  ssh_public_keys = [];
  network = none;
  overwrite_cloud_config = none;
}

abbrev gce_spec : String → Result Gce.RawConfig
gce_spec raw = ok (record {
  service_account = text "pro\"ject";
  zone = text "eu\\west";
  network = text "net";
  subnetwork = text "sub";
  tags = "a" ∷ "b" ∷ [];
  multi_zone = unset;
  regional = unset;
})

abbrev gce_file : String
gce_file =
    "[global]\nproject-id = \"pro\\\"ject\"\nlocal-zone = \"eu\\\\west\"\nnetwork-name = \"net\"\nsubnetwork-name = \"sub\"\nmultizone = false\nregional = false\nnode-tags = \"a\"\nnode-tags = \"b\"\n"

gce_is_rendered : Gce.get_cloud_config resolver gce_spec machine ≡ ok gce_file
unfolding Gce.get_cloud_config Gce.get_config Gce.get_project_id Gce.to_string Gce.show_tags
    render_config decode_spec decode_raw_spec escape escape_chars is_special show_bool value
    value_or_empty lookup
gce_is_rendered = refl

one_line : is_one_line "a\"b\\" ≡ true
unfolding is_one_line
one_line = refl

read_quoted-escape_example :
    read_quoted (escape "a\"b\\" <> "\nport = 1") ≡ some ("a\"b\\", "\nport = 1")
read_quoted-escape_example = read_quoted-escape "a\"b\\" "\nport = 1" one_line

abbrev openstack_spec : String → Result Openstack.RawConfig
openstack_spec raw = ok (record {
  identity_endpoint = text "https://auth";
  username = text "";
  password = text "p";
  application_credential_id = text "id";
  application_credential_secret = text "";
  domain_name = text "d";
  project_name = text "";
  project_id = text "";
  tenant_name = text "";
  tenant_id = text "";
  region = text "r";
  trust_device_path = unset;
  node_volume_attach_limit = some 25;
})

openstack_is_rendered :
    Openstack.get_cloud_config resolver openstack_spec machine "1.28.0"
    ≡ ok
        "[Global]\nauth-url    = \"https://auth\"\napplication-credential-id     = \"id\"\napplication-credential-secret = \"OS_APPLICATION_CREDENTIAL_SECRET\"\nregion      = \"r\"\n\n[LoadBalancer]\nmanage-security-groups = true\n\n[BlockStorage]\nignore-volume-az  = true\ntrust-device-path = false\nbs-version        = \"auto\"\nnode-volume-attach-limit = 25\n"
unfolding Openstack.get_cloud_config Openstack.get_config Openstack.get_config_auth
    Openstack.credential_auth Openstack.text_or_blank Openstack.limit_or_zero Openstack.to_string
    Openstack.execute Openstack.show_auth Openstack.show_limit Openstack.default_version
    render_config decode_spec decode_raw_spec escape escape_chars is_special show_bool sprint
openstack_is_rendered = refl

abbrev vsphere_spec : String → Result Vsphere.RawConfig
vsphere_spec raw = ok (record {
  username = text "u";
  password = text "p";
  vsphere_url = text "vc";
  datacenter = text "dc";
  cluster = text "cl";
  folder = text "";
  datastore_cluster = text "dsc";
  datastore = text "";
  allow_insecure = unset;
})

vsphere_is_rendered :
    Vsphere.get_cloud_config resolver vsphere_spec machine
    ≡ ok
        "[Global]\nuser              = \"u\"\npassword          = \"p\"\nport              = \"443\"\ninsecure-flag     = false\n\n[Disk]\nscsicontrollertype = \"pvscsi\"\n\n[Workspace]\nserver            = \"https://vc\"\ndatacenter        = \"dc\"\nfolder            = \"/dc/vm\"\ndefault-datastore = \"dsc\"\n\n\n[VirtualCenter \"https://vc\"]\nuser = \"u\"\npassword = \"p\"\nport = 443\ndatacenters = \"dc\"\n\n"
unfolding Vsphere.get_cloud_config Vsphere.get_config Vsphere.get_url Vsphere.with_https
    Vsphere.working_dir Vsphere.default_datastore Vsphere.to_string Vsphere.show_centers
    Vsphere.show_ip_family render_config decode_spec decode_raw_spec escape escape_chars is_special
    show_bool
vsphere_is_rendered = refl
