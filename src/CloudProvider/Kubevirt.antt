-- ===== src/CloudProvider/Kubevirt.antt =====
-- pkg/cloudprovider/kubevirt.
use operating_system_manager.Prelude.{String, [], ◌==◌, if◌then◌else◌}
use operating_system_manager.Prelude.Result.{Result, ok, err, wrap, ◌>>=◌}
use operating_system_manager.Machine.{ProviderConfig}
use operating_system_manager.CloudProvider.Resolver.{
  ConfigVarString, Resolver, decode_spec, render_config,
}

-- RawConfig, whose only field holds one field
pub record RawConfig : Type 0 where
  pub kubeconfig : ConfigVarString

pub record CloudConfig : Type 0 where
  pub kubeconfig : String
  pub namespace : String

unfoldable pub decoded_or : String → Result String → String
decoded_or text (ok decoded) = decoded
decoded_or text (err e) = text

module _ (V : Resolver) (unmarshal : String → Result RawConfig)
    (marshal : CloudConfig → Result String) where
  -- getNamespace
  unfoldable pub get_namespace : String
  get_namespace =
      let named = V.get_env "POD_NAMESPACE" in if named == "" then "kube-system" else named

  -- A kubeconfig that is not given in place may be encoded or not.
  unfoldable pub lenient_kubeconfig : ConfigVarString → Result String
  lenient_kubeconfig kubeconfig = do
    text ←
        wrap "failed to get value of \"kubeconfig\" field: %w" []
          (V.get_string_value_or_env kubeconfig "KUBEVIRT_KUBECONFIG")
    ok (decoded_or text (V.decode_base64 text))

  unfoldable pub get_kubeconfig_text : ConfigVarString → Result String
  get_kubeconfig_text kubeconfig =
      let lenient = lenient_kubeconfig kubeconfig in
      if kubeconfig.value == ""
      then lenient
      else wrap
          "failed to decode base64 encoded kubeconfig. Expected value is a base64 encoded Kubeconfig in JSON or YAML format: %w"
          [] (V.decode_base64 kubeconfig.value)

  unfoldable pub get_config : ProviderConfig → Result CloudConfig
  get_config config = do
    raw ← decode_spec unmarshal config
    kubeconfig ← get_kubeconfig_text raw.kubeconfig
    ok (record { kubeconfig = kubeconfig; namespace = get_namespace })

  unfoldable pub get_cloud_config : ProviderConfig → Result String
  get_cloud_config config = render_config marshal (get_config config)
