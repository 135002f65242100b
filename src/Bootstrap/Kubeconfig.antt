-- ===== src/Bootstrap/Kubeconfig.antt =====
-- kubeconfig.go and cloud_init_settings.go: the bootstrap kubeconfig, and the Secret that holds it.
use operating_system_manager.Prelude.{
  String, ◌<>◌, Bool, false, Option, none, some, [], ◌∷◌, ◌==◌, if◌then◌else◌,
}
use operating_system_manager.Prelude.Dict.{Dict, lookup, insert}
use operating_system_manager.Prelude.Result.{Result, ok, err, errorf, panicked, is_not_found}
use operating_system_manager.Prelude.Result
use operating_system_manager.Prelude.Exec.{Exec, pure, raise, lift, wrap, attempt, ◌>>=◌, ◌>>◌}
use operating_system_manager.Machine.{Key, Secret, KubeCluster, Kubeconfig}
use operating_system_manager.Osc.Names.{cloud_init_namespace}
use operating_system_manager.Osc.Api.{Api}
use operating_system_manager.ClusterInfo.{get_kubeconfig}
use operating_system_manager.Bootstrap.Cluster.{Cluster, Options}
use operating_system_manager.Bootstrap.Token.{
  create_bootstrap_token, get_token_from_service_account,
}

-- The last key of a range loop.
unfoldable pub last_key : {V : Type 0} → String → Dict V → String
last_key found [] = found
last_key found ((k, v) ∷ d) = last_key k d

-- delete of a map
unfoldable pub remove : {V : Type 0} → String → Dict V → Dict V
remove k [] = []
remove k ((j, v) ∷ d) = let rest = remove k d in if j == k then rest else (j, v) ∷ rest

-- contextIdentifier
abbrev pub context_identifier : String
context_identifier = "c"

-- The loop that sets the server of every cluster.
unfoldable pub override_servers : String → Dict KubeCluster → Dict KubeCluster
override_servers server [] = []
override_servers server ((k, cluster) ∷ clusters) =
    (k, record cluster { server = server }) ∷ override_servers server clusters

unfoldable pub override_if_set : String → Dict KubeCluster → Dict KubeCluster
override_if_set server clusters =
    if server == "" then clusters else override_servers server clusters

-- The clusters of the new kubeconfig: the last one is known as the context. A copy of a cluster that
-- is missing is nil, which is dereferenced later.
unfoldable pub rename_cluster : Dict KubeCluster → Option KubeCluster → Result (Dict KubeCluster)
rename_cluster clusters none = err panicked
rename_cluster clusters (some cluster) =
    ok (insert context_identifier cluster (remove (last_key "" clusters) clusters))

unfoldable pub renamed_clusters : Dict KubeCluster → Result (Dict KubeCluster)
renamed_clusters clusters = rename_cluster clusters (lookup (last_key "" clusters) clusters)

-- generateKubeconfig, on the kubeconfig of the cluster
unfoldable pub kubeconfig_for : String → String → Kubeconfig → Result Kubeconfig
kubeconfig_for override_server token info =
    Result.◌>>=◌ (renamed_clusters info.clusters) λ clusters. ok (record info {
      clusters = override_if_set override_server clusters;
      auth_infos = (context_identifier, token) ∷ [];
      contexts =
          (
            context_identifier,
            record { cluster = context_identifier; auth_info = context_identifier },
          )
          ∷ [];
      current_context = context_identifier;
    })

unfoldable pub kubeconfig_key : String → Key
kubeconfig_key name = record {
  namespace = cloud_init_namespace;
  name = name <> "-kubelet-bootstrap-config";
}

module _ (A : Api) where
  unfoldable pub token_in : Option String → Exec A.State String
  token_in none = raise (errorf "failed to fetch api server token" [])
  token_in (some token) = pure token

  -- ExtractAPIServerToken
  unfoldable pub extract_api_server_token : Exec A.State String
  extract_api_server_token = do
    secret ←
        wrap "failed to get %s secrets in namespace %s: %w"
          ("cloud-init-getter-token" ∷ cloud_init_namespace ∷ [])
          (A.get_secret
            (record { namespace = cloud_init_namespace; name = "cloud-init-getter-token" }))
    token_in (lookup "token" secret.entries)

  -- What CreateBootstrapKubeconfig does with the answer of its read.
  unfoldable pub store_kubeconfig : String → String → Bool → Result Secret → Exec A.State (Unit {0})
  store_kubeconfig name text updated (ok secret) =
      if updated
      then pure tt
      else A.update_secret (record secret { entries = ("kubeconfig", text) ∷ [] })
  store_kubeconfig name text updated (err e) =
      if is_not_found e
      then A.create_secret (record {
        name = name <> "-kubelet-bootstrap-config";
        namespace = cloud_init_namespace;
        annotations = [];
        labels = [];
        kind = "";
        immutable = false;
        entries = ("kubeconfig", text) ∷ [];
      })
      else raise e

  module _ (C : Cluster A.State) (o : Options) where
    -- generateKubeconfig
    unfoldable pub generate_kubeconfig : String → Exec A.State Kubeconfig
    generate_kubeconfig token = do
      info ← get_kubeconfig C.source o.ca_cert
      lift (kubeconfig_for o.override_server token info)

    -- The token, and whether its expiration may have been renewed.
    unfoldable pub get_token : Option Key → String → Exec A.State (String × Bool)
    get_token (some key) name = do
      token ←
          wrap "failed to get token from ServiceAccount %s/%s: %w" (key.namespace ∷ key.name ∷ [])
            (get_token_from_service_account A C key)
      pure (token, false)
    get_token none name =
        wrap "failed to create bootstrap token: %w" [] (create_bootstrap_token A C name)

    -- CreateBootstrapKubeconfig
    unfoldable pub create_bootstrap_kubeconfig : String → Exec A.State (Kubeconfig × String)
    create_bootstrap_kubeconfig name = do
      (token, updated) ← get_token o.service_account name
      config ← generate_kubeconfig token
      text ← lift (Result.wrap "error writing kubeconfig: %w" [] (C.write_kubeconfig config))
      attempt (A.get_secret (kubeconfig_key name)) (store_kubeconfig name text updated)
      pure (config, name <> "-kubelet-bootstrap-config")
