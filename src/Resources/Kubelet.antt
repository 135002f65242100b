-- ===== src/Resources/Kubelet.antt =====
-- operating_system_config.go: the kubelet's settings, read from annotations of the MachineDeployment.
use operating_system_manager.Prelude.{
  String, Option, none, some, List, [], ◌∷◌, starts_with, if◌then◌else◌, ℕ,
}
use operating_system_manager.Prelude.Int.{ℤ}
use operating_system_manager.Prelude.ParseInt.{parse_int32}
use operating_system_manager.Prelude.Text.{split, split_2}
use operating_system_manager.Prelude.Dict.{Dict, lookup, insert}
use operating_system_manager.Prelude.Result.{Result, ok, wrap, ◌>>=◌}
use operating_system_manager.Resources.Data.{KubeletConfig, zero_kubelet}

-- Constants of k8c.io/machine-controller/sdk, and time.ParseDuration
pub record KubeletKeys : Type 0 where
  pub annotation_prefix : String
  pub kube_reserved : String
  pub system_reserved : String
  pub eviction_hard : String
  pub max_pods : String
  pub container_log_max_size : String
  pub container_log_max_files : String
  pub image_gc_high_threshold_percent : String
  pub image_gc_low_threshold_percent : String
  pub image_minimum_gc_age : String
  pub image_maximum_gc_age : String
  pub parse_duration : String → Result ℤ

-- `res[parts[0]] = parts[1]`, or nothing where the split gave one part
unfoldable pub insert_parts : Option (String × String) → Dict String → Dict String
insert_parts none res = res
insert_parts (some (k, v)) res = insert k v res

-- The loop of getKeyValueMap.
unfoldable pub add_pairs : ℕ → List String → Dict String → Dict String
add_pairs delimiter [] res = res
add_pairs delimiter (pair ∷ pairs) res =
    add_pairs delimiter pairs (insert_parts (split_2 delimiter pair) res)

-- getKeyValueMap; 44 is ","
unfoldable pub get_key_value_map : String → ℕ → Dict String
get_key_value_map text delimiter = add_pairs delimiter (split 44 text) []

unfoldable pub insert_named : Option (String × String) → String → Dict String → Dict String
insert_named none value configs = configs
insert_named (some (before, name)) value configs = insert name value configs

-- The loop of getKubeletConfigMap; 47 is "/"
unfoldable pub add_configs : String → Dict String → Dict String → Dict String
add_configs prefix [] configs = configs
add_configs prefix ((name, value) ∷ annotations) configs =
    add_configs prefix annotations
      (if starts_with name prefix then insert_named (split_2 47 name) value configs else configs)

-- getKubeletConfigMap
unfoldable pub get_kubelet_config_map : KubeletKeys → Dict String → Dict String
get_kubelet_config_map K annotations = add_configs K.annotation_prefix annotations []

unfoldable pub key_values : ℕ → Option String → Option (Dict String)
key_values delimiter none = none
key_values delimiter (some text) = some (get_key_value_map text delimiter)

-- A value that is there is parsed, and an error gets a message.
unfoldable pub parsed :
    {A : Type 0} → (String → Result A) → String → Option String → Result (Option A)
parsed parse message none = ok none
parsed parse message (some text) = wrap message [] (parse text) >>= λ a. ok (some a)

-- getKubeletConfigs, on the map of settings; 61 is "=" and 60 is "<"
unfoldable pub read_kubelet_configs : KubeletKeys → Dict String → Result KubeletConfig
read_kubelet_configs K configs =
    parsed parse_int32 "parsing maxPods: %w" (lookup K.max_pods configs) >>= λ max_pods.
    parsed parse_int32 "parsing imageGCHighThresholdPercent: %w"
      (lookup K.image_gc_high_threshold_percent configs)
    >>= λ high.
        parsed parse_int32 "parsing imageGCLowThresholdPercent: %w"
          (lookup K.image_gc_low_threshold_percent configs)
        >>= λ low.
            parsed K.parse_duration "parsing imageMinimumGCAge: %w"
              (lookup K.image_minimum_gc_age configs)
            >>= λ minimum.
                parsed K.parse_duration "parsing imageMaximumGCAge: %w"
                  (lookup K.image_maximum_gc_age configs)
                >>= λ maximum. ok (record {
                  kube_reserved = key_values 61 (lookup K.kube_reserved configs);
                  system_reserved = key_values 61 (lookup K.system_reserved configs);
                  eviction_hard = key_values 60 (lookup K.eviction_hard configs);
                  max_pods = max_pods;
                  container_log_max_size = lookup K.container_log_max_size configs;
                  container_log_max_files = lookup K.container_log_max_files configs;
                  image_gc_high_threshold_percent = high;
                  image_gc_low_threshold_percent = low;
                  image_minimum_gc_age = minimum;
                  image_maximum_gc_age = maximum;
                })

abbrev pub unless_empty : KubeletKeys → Dict String → Result KubeletConfig
unless_empty K [] = ok zero_kubelet
unless_empty K (c ∷ configs) = read_kubelet_configs K (c ∷ configs)

-- getKubeletConfigs
unfoldable pub get_kubelet_configs : KubeletKeys → Dict String → Result KubeletConfig
get_kubelet_configs K annotations = unless_empty K (get_kubelet_config_map K annotations)
