-- ===== src/Bootstrap/Context.antt =====
-- Where the current context of a bootstrap kubeconfig leads: to the token and to a cluster.
use mathlib.Core.Path.{subst}
use mathlib.Core.Option.{some-injective}
use operating_system_manager.Prelude.{
  String, Bool-cases, inl, inr, Option, none, some, [], ◌∷◌, ◌≡◌, refl, sym, ap, ◌∙◌, ◌==◌,
  if◌then◌else◌,
}
use operating_system_manager.Prelude.Dict.{Dict, lookup, lookup-insert}
use operating_system_manager.Prelude.Result.{ok, bind-eq-ok, ok-injective}
use operating_system_manager.Machine.{KubeCluster, Kubeconfig, KubeContext}
use operating_system_manager.Bootstrap.Kubeconfig.{
  last_key, override_servers, override_if_set, rename_cluster, renamed_clusters, kubeconfig_for,
  context_identifier,
}

-- The current context is there, and leads to a cluster and a token that are there.
pub record Resolves (config : Kubeconfig) (cluster : KubeCluster) (token : String) : Type 0 where
  pub context : KubeContext
  pub current : lookup config.current_context config.contexts ≡ some context
  pub to_cluster : lookup context.cluster config.clusters ≡ some cluster
  pub to_token : lookup context.auth_info config.auth_infos ≡ some token

-- A cluster with the server that was asked for.
unfoldable pub served : String → KubeCluster → KubeCluster
served server cluster = if server == "" then cluster else record cluster { server = server }

override_servers-lookup :
    (server k : String) (d : Dict KubeCluster) {cluster : KubeCluster}
    → lookup k d ≡ some cluster
    → lookup k (override_servers server d) ≡ some (record cluster { server = server })
unfolding override_servers lookup
override_servers-lookup server k [] h = cc
override_servers-lookup server k ((j, c) ∷ d) h = elim (Bool-cases (j == k)) [
  | inl same ↦ rw same (
      ap {A = KubeCluster} (λ x. some (record x { server = server }))
        (some-injective _ _ (rw same at h)))
  | inr other ↦ rw other (override_servers-lookup server k d (rw other at h))
]

override_if_set-lookup :
    (server k : String) (d : Dict KubeCluster) {cluster : KubeCluster}
    → lookup k d ≡ some cluster
    → lookup k (override_if_set server d) ≡ some (served server cluster)
unfolding override_if_set served
override_if_set-lookup server k d h = elim (Bool-cases (server == "")) [
  | inl unset ↦ rw unset h
  | inr set ↦ rw set (override_servers-lookup server k d h)
]

-- A cluster of the kubeconfig of the cluster, and the new clusters.
rename_cluster-lookup :
    (clusters : Dict KubeCluster) (o : Option KubeCluster) {renamed : Dict KubeCluster}
    → rename_cluster clusters o ≡ ok renamed
    → (cluster : KubeCluster) × (o ≡ some cluster)
      × (lookup context_identifier renamed ≡ some cluster)
unfolding rename_cluster
rename_cluster-lookup clusters none h = cc
rename_cluster-lookup clusters (some cluster) h = (
  cluster,
  refl,
  ap (lookup context_identifier) (sym (ok-injective _ _ h))
      ∙ lookup-insert context_identifier context_identifier cluster _,
)

-- Whenever generateKubeconfig makes a kubeconfig, its current context leads to the given token, and
-- to a cluster of the kubeconfig that it started from, with the server replaced where another is
-- asked for.
pub kubeconfig_for-Resolves :
    (server token : String) (info : Kubeconfig) {config : Kubeconfig}
    → kubeconfig_for server token info ≡ ok config
    → (k : String) × (cluster : KubeCluster) × (lookup k info.clusters ≡ some cluster)
      × Resolves config (served server cluster) token
unfolding kubeconfig_for renamed_clusters lookup
kubeconfig_for-Resolves server token info h =
    let chain = bind-eq-ok _ _ h in
    let found = rename_cluster-lookup _ _ chain.1 in
    (
      last_key "" info.clusters,
      found.0,
      found.1,
      subst (λ c. Resolves c (served server found.0) token) (ok-injective _ _ chain.2)
          (record {
            context = record { cluster = context_identifier; auth_info = context_identifier };
            current = refl;
            to_cluster = override_if_set-lookup server context_identifier _ found.2;
            to_token = refl;
          }),
    )
