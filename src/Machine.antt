-- ===== src/Machine.antt =====
-- What the program reads of the objects of other projects: the MachineDeployment and its provider
-- configuration (k8c.io/machine-controller/sdk), Secrets, kubeconfigs, and namespaced names.
use operating_system_manager.Prelude.{
  String, Bool, Option, none, some, List, true, ◌&&◌, ◌≡◌, ◌↔◌, arith, ◌==◌, eq_iff,
}
use operating_system_manager.Prelude.Dict.{Dict}
use operating_system_manager.Prelude.Result.{Result, ok, err, panicked}

-- types.NamespacedName
pub record Key : Type 0 where
  pub namespace : String
  pub name : String

unfoldable pub key_eq : Key → Key → Bool
key_eq a b = a.namespace == b.namespace && a.name == b.name

pub key_eq_iff : (a b : Key) → (key_eq a b ≡ true) ↔ (a ≡ b)
unfolding key_eq
key_eq_iff a b = ground (arith, eq_iff a.namespace b.namespace, eq_iff a.name b.name)

pub record MachineDeployment : Type 0 where
  pub name : String
  pub namespace : String
  pub annotations : Dict String
  pub finalizers : List String
  -- DeletionTimestamp is set
  pub deleting : Bool
  -- Spec.Template.Spec.ProviderSpec.Value, as JSON text
  pub provider_spec : Option String
  -- Spec.Template.Spec.Versions.Kubelet
  pub kubelet_version : String

-- md.Spec.Template.Spec.ProviderSpec.Value.Raw
unfoldable pub raw_spec : Option String → Result String
raw_spec none = err panicked
raw_spec (some raw) = ok raw

-- providerconfig.NetworkConfig, which the program hands on and asks by two methods of the SDK
pub record NetworkConfig : Type 0 where
  pub text : String

-- providerconfig.Config
pub record ProviderConfig : Type 0 where
  pub operating_system : String
  pub operating_system_spec : Option String
  pub cloud_provider : String
  pub cloud_provider_spec : Option String
  pub ssh_public_keys : List String
  pub network : Option NetworkConfig
  pub overwrite_cloud_config : Option String

pub record Secret : Type 0 where
  pub name : String
  pub namespace : String
  pub annotations : Dict String
  pub labels : Dict String
  pub kind : String
  pub immutable : Bool
  pub entries : Dict String

-- clientcmdapi.Cluster and clientcmdapi.Config
pub record KubeCluster : Type 0 where
  pub server : String
  pub ca_data : String

pub record KubeContext : Type 0 where
  pub cluster : String
  pub auth_info : String

pub record Kubeconfig : Type 0 where
  pub kind : String
  pub api_version : String
  pub clusters : Dict KubeCluster
  pub auth_infos : Dict String
  pub contexts : Dict KubeContext
  pub current_context : String
