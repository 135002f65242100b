-- ===== src/CloudProvider/Vsphere.antt =====
-- pkg/cloudprovider/vsphere.
use operating_system_manager.Prelude.{
  String, ◌<>◌, Bool, [], ◌∷◌, ◌==◌, if◌then◌else◌, len, nat_eq, starts_with,
}
use operating_system_manager.Prelude.Dict.{Dict}
use operating_system_manager.Prelude.Result.{Result, ok, wrap, ◌>>=◌}
use operating_system_manager.Machine.{ProviderConfig}
use operating_system_manager.CloudProvider.Ini.{escape, show_bool}
use operating_system_manager.CloudProvider.Resolver.{
  ConfigVarString, ConfigVarBool, Resolver, decode_spec, render_config,
}

pub record RawConfig : Type 0 where
  pub username : ConfigVarString
  pub password : ConfigVarString
  pub vsphere_url : ConfigVarString
  pub datacenter : ConfigVarString
  pub cluster : ConfigVarString
  pub folder : ConfigVarString
  pub datastore_cluster : ConfigVarString
  pub datastore : ConfigVarString
  pub allow_insecure : ConfigVarBool

pub record GlobalOpts : Type 0 where
  pub user : String
  pub password : String
  pub insecure_flag : Bool
  pub vcenter_port : String
  pub cluster_id : String
  pub ip_family : String

pub record WorkspaceOpts : Type 0 where
  pub vcenter_ip : String
  pub datacenter : String
  pub folder : String
  pub default_datastore : String

pub record VirtualCenterConfig : Type 0 where
  pub user : String
  pub password : String
  pub vcenter_port : String
  pub datacenters : String
  pub ip_family : String

pub record CloudConfig : Type 0 where
  pub global : GlobalOpts
  pub scsi_controller_type : String
  pub workspace : WorkspaceOpts
  pub virtual_center : Dict VirtualCenterConfig

unfoldable pub show_ip_family : String → String → String
show_ip_family key family = if family == "" then "" else key <> escape family

-- The range over the virtual centers, of which there is one.
unfoldable pub show_centers : Dict VirtualCenterConfig → String
show_centers [] = ""
show_centers ((name, vc) ∷ rest) =
    "\n[VirtualCenter "
    <> (escape name
        <> ("]\nuser = "
            <> (escape vc.user
                <> ("\npassword = "
                    <> (escape vc.password
                        <> ("\nport = "
                            <> (vc.vcenter_port
                                <> ("\ndatacenters = "
                                    <> (escape vc.datacenters
                                        <> (show_ip_family "\nip-family = " vc.ip_family
                                            <> ("\n" <> show_centers rest)))))))))))

-- ToString
unfoldable pub to_string : CloudConfig → String
to_string c =
    "[Global]\nuser              = "
    <> (escape c.global.user
        <> ("\npassword          = "
            <> (escape c.global.password
                <> ("\nport              = "
                    <> (escape c.global.vcenter_port
                        <> ("\ninsecure-flag     = "
                            <> (show_bool c.global.insecure_flag
                                <> (show_ip_family "\nip-family         = " c.global.ip_family
                                    <> ("\n\n[Disk]\nscsicontrollertype = "
                                        <> (escape c.scsi_controller_type
                                            <> ("\n\n[Workspace]\nserver            = "
                                                <> (escape c.workspace.vcenter_ip
                                                    <> ("\ndatacenter        = "
                                                        <> (escape c.workspace.datacenter
                                                            <> ("\nfolder            = "
                                                            <> (escape c.workspace.folder
                                                            <> ("\ndefault-datastore = "
                                                            <> (escape c.workspace.default_datastore
                                                            <> ("\n\n"
                                                            <> (show_centers c.virtual_center
                                                            <> "\n"))))))))))))))))))))

unfoldable pub with_https : String → String
with_https url = if starts_with url "https://" then url else "https://" <> url

unfoldable pub working_dir : String → String → String
working_dir datacenter folder = if folder == "" then "/" <> (datacenter <> "/vm") else folder

unfoldable pub default_datastore : String → String → String
default_datastore datastore cluster = if nat_eq (len datastore) 0 then cluster else datastore

module _ (V : Resolver) (unmarshal : String → Result RawConfig) where
  -- getURL: the host name and the port
  unfoldable pub get_url : RawConfig → Result (String × String)
  get_url raw = do
    url ← V.get_string_value_or_env raw.vsphere_url "VSPHERE_ADDRESS"
    wrap "failed to parse '%s' as url: %w" (with_https url ∷ []) (V.parse_url (with_https url))

  unfoldable pub get_config : ProviderConfig → Result CloudConfig
  get_config config = do
    raw ← decode_spec unmarshal config
    url ← get_url raw
    user ← V.get_string_value_or_env raw.username "VSPHERE_USERNAME"
    password ← V.get_string_value_or_env raw.password "VSPHERE_PASSWORD"
    insecure_flag ← V.get_bool_value_or_env raw.allow_insecure "VSPHERE_ALLOW_INSECURE"
    cluster_id ← V.get_string_value raw.cluster
    datacenter ← V.get_string_value raw.datacenter
    folder ← V.get_string_value raw.folder
    datastore ← V.get_string_value raw.datastore
    datastore_cluster ← V.get_string_value raw.datastore_cluster
    ok (record {
      global = record {
        user = user;
        password = password;
        insecure_flag = insecure_flag;
        vcenter_port = url.1;
        cluster_id = cluster_id;
        ip_family = "";
      };
      scsi_controller_type = "pvscsi";
      workspace = record {
        vcenter_ip = url.0;
        datacenter = datacenter;
        folder = working_dir datacenter folder;
        default_datastore = default_datastore datastore datastore_cluster;
      };
      virtual_center =
          (
            url.0,
            record {
              user = user;
              password = password;
              vcenter_port = url.1;
              datacenters = datacenter;
              ip_family = "";
            },
          )
          ∷ [];
    })

  unfoldable pub get_cloud_config : ProviderConfig → Result String
  get_cloud_config config = render_config (λ c. ok (to_string c)) (get_config config)
