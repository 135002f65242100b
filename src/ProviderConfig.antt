-- ===== src/ProviderConfig.antt =====
-- pkg/providerconfig: the operating system part of a provider configuration. JSON is a parameter.
use operating_system_manager.Prelude.{
  String, ◌<>◌, Bool, true, false, Option, none, some, [], ◌∷◌, ◌≡◌, if◌then◌else◌,
}
use operating_system_manager.Prelude.Dict.{Dict}
use operating_system_manager.Prelude.Result.{Result, ok}

-- json.Marshal and json.Unmarshal at one Go type
pub record Json (C : Type 0) : Type 0 where
  pub marshal : C → String
  pub unmarshal : String → Result C

-- What the two promise of each other.
abbrev pub RoundTrips : {C : Type 0} → Json C → Type 0
RoundTrips {C} j = (c : C) → j.unmarshal (j.marshal c) ≡ ok c

-- amzn2.Config, ubuntu.Config, rockylinux.Config and the common Config
pub record UpgradeConfig : Type 0 where
  pub dist_upgrade_on_boot : Bool

pub record FlatcarConfig : Type 0 where
  pub disable_auto_update : Bool
  pub disable_locksmith_d : Bool
  pub disable_update_engine : Bool
  pub provisioning_utility : String

pub record RhelConfig : Type 0 where
  pub dist_upgrade_on_boot : Bool
  pub rhel_subscription_manager_user : String
  pub rhel_subscription_manager_password : String
  pub rhsm_offline_token : String
  pub attach_subscription : Bool
  pub rhel_use_satellite_server : Bool
  pub rhel_satellite_server : String
  pub rhel_organization_name : String
  pub rhel_activation_key : String

abbrev pub zero_upgrade : UpgradeConfig
zero_upgrade = record { dist_upgrade_on_boot = false }

abbrev pub zero_flatcar : FlatcarConfig
zero_flatcar = record {
  disable_auto_update = false;
  disable_locksmith_d = false;
  disable_update_engine = false;
  provisioning_utility = "";
}

abbrev pub zero_rhel : RhelConfig
zero_rhel = record {
  dist_upgrade_on_boot = false;
  rhel_subscription_manager_user = "";
  rhel_subscription_manager_password = "";
  rhsm_offline_token = "";
  attach_subscription = false;
  rhel_use_satellite_server = false;
  rhel_satellite_server = "";
  rhel_organization_name = "";
  rhel_activation_key = "";
}

-- DefaultConfig, at a configuration type with its zero value: nil becomes the zero value's JSON.
unfoldable pub default_config : {C : Type 0} → Json C → C → Option String → String
default_config j zero_value none = j.marshal zero_value
default_config j zero_value (some raw) = raw

-- LoadConfig, the same text in each package
unfoldable pub load_config : {C : Type 0} → Json C → C → Option String → Result C
unfolding default_config
load_config j zero_value raw = j.unmarshal (default_config j zero_value raw)

unfoldable pub load_common : Json UpgradeConfig → Option String → Result UpgradeConfig
unfolding load_config
load_common j raw = load_config j zero_upgrade raw

unfoldable pub load_amzn2 : Json UpgradeConfig → Option String → Result UpgradeConfig
unfolding load_config
load_amzn2 j raw = load_config j zero_upgrade raw

unfoldable pub load_flatcar : Json FlatcarConfig → Option String → Result FlatcarConfig
unfolding load_config
load_flatcar j raw = load_config j zero_flatcar raw

unfoldable pub load_rhel : Json RhelConfig → Option String → Result RhelConfig
unfolding load_config
load_rhel j raw = load_config j zero_rhel raw

unfoldable pub load_rockylinux : Json UpgradeConfig → Option String → Result UpgradeConfig
unfolding load_config
load_rockylinux j raw = load_config j zero_upgrade raw

unfoldable pub load_ubuntu : Json UpgradeConfig → Option String → Result UpgradeConfig
unfolding load_config
load_ubuntu j raw = load_config j zero_upgrade raw

unfoldable pub format_bool : Bool → String
format_bool true = "true"
format_bool false = "false"

-- RHSubscription
unfoldable pub rh_subscription : RhelConfig → Dict String
unfolding format_bool
rh_subscription c =
    if c.rhel_use_satellite_server
    then ("org", c.rhel_organization_name)
      ∷ ("activation-key", c.rhel_activation_key)
      ∷ ("server-hostname", c.rhel_satellite_server)
      ∷ ("rhsm-baseurl", "https://" <> (c.rhel_satellite_server <> "/pulp/repos"))
      ∷ []
    else ("username", c.rhel_subscription_manager_user)
      ∷ ("password", c.rhel_subscription_manager_password)
      ∷ ("auto-attach", format_bool c.attach_subscription)
      ∷ []
