-- ===== src/CloudProvider/Openstack.antt =====
-- pkg/cloudprovider/openstack.
use operating_system_manager.Prelude.{
  String, ◌<>◌, ℕ, zero, suc, Bool, true, Option, none, some, [], ◌==◌, if◌then◌else◌, len, nat_eq,
}
use operating_system_manager.Prelude.Int.{pos, sprint}
use operating_system_manager.Prelude.Result.{Result, ok, err, wrap, ◌>>=◌}
use operating_system_manager.Machine.{ProviderConfig}
use operating_system_manager.CloudProvider.Ini.{escape, show_bool}
use operating_system_manager.CloudProvider.Resolver.{
  ConfigVarString, ConfigVarBool, Resolver, decode_spec, render_config,
}

pub record RawConfig : Type 0 where
  pub identity_endpoint : ConfigVarString
  pub username : ConfigVarString
  pub password : ConfigVarString
  pub application_credential_id : ConfigVarString
  pub application_credential_secret : ConfigVarString
  pub domain_name : ConfigVarString
  pub project_name : ConfigVarString
  pub project_id : ConfigVarString
  pub tenant_name : ConfigVarString
  pub tenant_id : ConfigVarString
  pub region : ConfigVarString
  pub trust_device_path : ConfigVarBool
  pub node_volume_attach_limit : Option ℕ

-- What getConfigAuth sets of GlobalOpts.
pub record Auth : Type 0 where
  pub username : String
  pub password : String
  pub application_credential_id : String
  pub application_credential_secret : String
  pub project_name : String
  pub project_id : String

pub record CloudConfig : Type 0 where
  pub auth_url : String
  pub auth : Auth
  pub domain_name : String
  pub region : String
  pub manage_security_groups : Bool
  pub bs_version : String
  pub trust_device_path : Bool
  pub ignore_volume_az : Bool
  pub node_volume_attach_limit : ℕ
  pub version : String

unfoldable pub show_auth : Auth → String → String
show_auth a domain_name =
    if a.application_credential_id == ""
    then "\nusername    = "
      <> (escape a.username
          <> ("\npassword    = "
              <> (escape a.password
                  <> ("\ntenant-name = "
                      <> (escape a.project_name
                          <> ("\ntenant-id   = "
                              <> (escape a.project_id
                                  <> ("\ndomain-name = " <> escape domain_name))))))))
    else "\napplication-credential-id     = "
      <> (escape a.application_credential_id
          <> ("\napplication-credential-secret = " <> escape a.application_credential_secret))

unfoldable pub show_limit : ℕ → String
show_limit zero = ""
show_limit (suc n) = "\nnode-volume-attach-limit = " <> sprint (pos (suc n))

unfoldable pub default_version : String → String
default_version version = if version == "" then "auto" else version

module _ (V : Resolver) where
  -- The template, executed.
  unfoldable pub execute : CloudConfig → Result String
  execute c = do
    manages ← V.semver_compare "~1.9.10 || ~1.10.6 || ~1.11.1 || >=1.12.*" c.version
    ignores ← V.semver_compare ">=1.9" c.version
    ok (
        "[Global]\nauth-url    = "
        <> (escape c.auth_url
            <> (show_auth c.auth c.domain_name
                <> ("\nregion      = "
                    <> (escape c.region
                        <> ("\n\n[LoadBalancer]"
                            <> ((if manages
                                  then "\nmanage-security-groups = "
                                    <> show_bool c.manage_security_groups
                                  else "")
                                <> ("\n\n[BlockStorage]"
                                    <> ((if ignores
                                          then "\nignore-volume-az  = "
                                            <> show_bool c.ignore_volume_az
                                          else "")
                                        <> ("\ntrust-device-path = "
                                            <> (show_bool c.trust_device_path
                                                <> ("\nbs-version        = "
                                                    <> (escape (default_version c.bs_version)
                                                        <> (show_limit c.node_volume_attach_limit
                                                            <> "\n"))))))))))))))

  -- ToString
  unfoldable pub to_string : CloudConfig → Result String
  to_string c = wrap "failed to execute cloud config template: %w" [] (execute c)

  -- The value of a field, or else the answer for another one.
  unfoldable pub first_value : Result String → Result String → Result String
  first_value (err e) fallback = fallback
  first_value (ok text) fallback = if nat_eq (len text) 0 then fallback else ok text

  unfoldable pub get_project_name_or_tenant_name : RawConfig → Result String
  get_project_name_or_tenant_name raw =
      first_value (V.get_string_value_or_env raw.project_name "OS_PROJECT_NAME")
        (V.get_string_value_or_env raw.tenant_name "OS_TENANT_NAME")

  unfoldable pub get_project_id_or_tenant_id : RawConfig → Result String
  get_project_id_or_tenant_id raw =
      first_value (V.get_string_value_or_env raw.project_id "OS_PROJECT_ID")
        (V.get_string_value_or_env raw.tenant_id "OS_TENANT_ID")

  unfoldable pub credential_auth : RawConfig → String → Result Auth
  credential_auth raw id = do
    secret ←
        wrap "failed to get the value of \"applicationCredentialSecret\" field, error = %w" [] (
          V.get_string_value_or_env raw.application_credential_secret
            "OS_APPLICATION_CREDENTIAL_SECRET")
    ok (record {
      username = "";
      password = "";
      application_credential_id = id;
      application_credential_secret = secret;
      project_name = "";
      project_id = "";
    })

  unfoldable pub password_auth : RawConfig → Result Auth
  password_auth raw = do
    username ←
        wrap "failed to get the value of \"username\" field, error = %w" []
          (V.get_string_value_or_env raw.username "OS_USER_NAME")
    password ←
        wrap "failed to get the value of \"password\" field, error = %w" []
          (V.get_string_value_or_env raw.password "OS_PASSWORD")
    project_name ←
        wrap
          "failed to get the value of \"projectName\" field or fallback to \"tenantName\" field, error = %w"
          [] (get_project_name_or_tenant_name raw)
    project_id ←
        wrap "failed to get the value of \"projectID\" or fallback to\"tenantID\" field, error = %w"
          [] (get_project_id_or_tenant_id raw)
    ok (record {
      username = username;
      password = password;
      application_credential_id = "";
      application_credential_secret = "";
      project_name = project_name;
      project_id = project_id;
    })

  -- getConfigAuth
  unfoldable pub get_config_auth : RawConfig → Result Auth
  get_config_auth raw = do
    id ←
        wrap "failed to get the value of \"applicationCredentialID\" field, error = %w" []
          (V.get_string_value_or_env raw.application_credential_id "OS_APPLICATION_CREDENTIAL_ID")
    if id == "" then password_auth raw else credential_auth raw id

  -- The resolver answers with the empty text beside an error.
  unfoldable pub text_or_blank : Result String → String
  text_or_blank (ok text) = text
  text_or_blank (err e) = ""

  unfoldable pub limit_or_zero : Option ℕ → ℕ
  limit_or_zero none = 0
  limit_or_zero (some n) = n

  module _ (unmarshal : String → Result RawConfig) where
    unfoldable pub get_config : ProviderConfig → String → Result CloudConfig
    get_config config kubelet_version = do
      raw ← decode_spec unmarshal config
      auth_url ←
          wrap "failed to get the value of \"identityEndpoint\" field, error = %w" []
            (V.get_string_value_or_env raw.identity_endpoint "OS_AUTH_URL")
      trust_device_path ← V.get_bool_value raw.trust_device_path
      auth ← get_config_auth raw
      ok (record {
        auth_url = auth_url;
        auth = auth;
        domain_name = text_or_blank (V.get_string_value_or_env raw.domain_name "OS_DOMAIN_NAME");
        region = text_or_blank (V.get_string_value_or_env raw.region "OS_REGION_NAME");
        manage_security_groups = true;
        bs_version = "auto";
        trust_device_path = trust_device_path.0;
        ignore_volume_az = true;
        node_volume_attach_limit = limit_or_zero raw.node_volume_attach_limit;
        version = kubelet_version;
      })

    unfoldable pub get_cloud_config : ProviderConfig → String → Result String
    get_cloud_config config kubelet_version =
        render_config to_string (get_config config kubelet_version)
