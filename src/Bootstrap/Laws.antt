-- ===== src/Bootstrap/Laws.antt =====
-- What pkg/bootstrap relies on of the API server and of the clock, and which stored objects its
-- calls leave as they are.
use operating_system_manager.Prelude.{
  String, Bool, Option, none, some, List, [], ◌∷◌, ◌≡◌, ℕ, ◌≤◌, ◌/◌, ◌*◌, sym,
}
use mathlib.Core.Path.{subst}
use operating_system_manager.Prelude.Dict.{value}
use operating_system_manager.Prelude.Result.{Result, ok, err}
use operating_system_manager.Machine.{Key, Secret, Kubeconfig}
use operating_system_manager.Osc.Api.{Api}
use operating_system_manager.Osc.Api.Laws.{Content, IsLawful, secret_key}
use operating_system_manager.Osc.Api.Keeps.{
  Keeps, keeps_rules, Keeps-bind, Keeps-wrap, Keeps-if, Keeps-pure, Keeps-raise,
}
use operating_system_manager.ClusterInfo.{
  get_kubeconfig, get_kubeconfig_from_config_map, build_kubeconfig_from_endpoint_slice,
  or_from_slices,
}
use operating_system_manager.Bootstrap.Cluster.{Cluster, Options}
use operating_system_manager.Bootstrap.Token.{
  get_as_unstructured, first_token, get_token_from_service_account, get_secret_if_exists, renew,
  update_secret_expiration_and_get_token, create_token, token_at, create_bootstrap_token, always,
}
use operating_system_manager.Bootstrap.Kubeconfig.{
  token_in, extract_api_server_token, store_kubeconfig, generate_kubeconfig, get_token,
  create_bootstrap_kubeconfig,
}

-- A Secret is stored, in a namespace and with a label.
pub record IsLabelled (namespace label text : String) (c : Content) (x : Secret) : Type 0 where
  pub stored : c.secrets (secret_key x) ≡ some x
  pub inside : x.namespace ≡ namespace
  pub labelled : value label x.labels ≡ text

abbrev pub AllLabelled : String → String → String → Content → List Secret → Type 0
AllLabelled namespace label text c [] = Unit
AllLabelled namespace label text c (x ∷ xs) =
    IsLabelled namespace label text c x × AllLabelled namespace label text c xs

abbrev pub Lists : String → String → String → Content → Result (List Secret) → Type 0
Lists namespace label text c (ok xs) = AllLabelled namespace label text c xs
Lists namespace label text c (err e) = Unit

-- Reads change nothing. A list answers with stored objects. The clock does not go back, and a time
-- that is written and parsed again has lost what is less than a second.
pub record IsLawfulCluster {A : Api} (L : IsLawful A) (C : Cluster A.State) : Type 0 where
  pub get_config_map_content :
      (k : Key) (s : A.State) → L.content (C.source.get_config_map k s).1 ≡ L.content s
  pub list_endpoint_slices_content :
      (s : A.State) → L.content (C.source.list_endpoint_slices s).1 ≡ L.content s
  pub get_unstructured_content :
      (kind : String) (k : Key) (s : A.State)
      → L.content (C.get_unstructured kind k s).1 ≡ L.content s
  pub list_secrets_content :
      (namespace label text : String) (s : A.State)
      → L.content (C.list_secrets namespace label text s).1 ≡ L.content s
  pub list_secrets_answer :
      (namespace label text : String) (s : A.State)
      → Lists namespace label text (L.content s) (C.list_secrets namespace label text s).0
  -- a Secret that is read has the name and the namespace that were asked for
  pub get_secret_named :
      (k : Key) (s : A.State) (x : Secret) → (A.get_secret k s).0 ≡ ok x → secret_key x ≡ k
  pub now_content : (s : A.State) → L.content (C.now s).1 ≡ L.content s
  pub random_text_content : (n : ℕ) (s : A.State) → L.content (C.random_text n s).1 ≡ L.content s
  pub now_later : (s : A.State) → (C.now s).0 ≤ (C.now (C.now s).1).0
  pub list_secrets_later :
      (namespace label text : String) (s : A.State)
      → (C.now s).0 ≤ (C.now (C.list_secrets namespace label text s).1).0
  pub random_text_later : (n : ℕ) (s : A.State) → (C.now s).0 ≤ (C.now (C.random_text n s).1).0
  pub parse-format : (t : ℕ) → C.parse_time (C.format_time t) ≡ ok (t / 1000000000 * 1000000000)

module _ {A : Api} {L : IsLawful A} {C : Cluster A.State} (M : IsLawfulCluster L C)
    (I : Content → Type 0) where
  Keeps-now : Keeps L I (always C.now)
  Keeps-now = record { at = λ s h. subst I (sym (M.now_content s)) h }

  Keeps-random_text : (n : ℕ) → Keeps L I (always (C.random_text n))
  Keeps-random_text n = record { at = λ s h. subst I (sym (M.random_text_content n s)) h }

  Keeps-get_config_map : (k : Key) → Keeps L I (C.source.get_config_map k)
  Keeps-get_config_map k = record { at = λ s h. subst I (sym (M.get_config_map_content k s)) h }

  Keeps-list_endpoint_slices : Keeps L I C.source.list_endpoint_slices
  Keeps-list_endpoint_slices = record {
    at = λ s h. subst I (sym (M.list_endpoint_slices_content s)) h;
  }

  Keeps-get_unstructured : (kind : String) (k : Key) → Keeps L I (C.get_unstructured kind k)
  Keeps-get_unstructured kind k = record {
    at = λ s h. subst I (sym (M.get_unstructured_content kind k s)) h;
  }

  Keeps-list_secrets :
      (namespace label text : String) → Keeps L I (C.list_secrets namespace label text)
  Keeps-list_secrets namespace label text = record {
    at = λ s h. subst I (sym (M.list_secrets_content namespace label text s)) h;
  }

  ruleset cluster_rules = (
    keeps_rules, Keeps-now, Keeps-random_text, Keeps-get_config_map, Keeps-list_endpoint_slices,
    Keeps-get_unstructured, Keeps-list_secrets,
  )

  get_as_unstructured-Keeps :
      {B : Type 0} (kind : String) (unmarshal : String → Result B) (k : Key)
      → Keeps L I (get_as_unstructured A C kind unmarshal k)
  unfolding get_as_unstructured
  get_as_unstructured-Keeps kind unmarshal k = search cluster_rules

  first_token-Keeps :
      (namespace : String) (names : List String) → Keeps L I (first_token A C namespace names)
  unfolding first_token
  first_token-Keeps namespace [] = Keeps-raise _
  first_token-Keeps namespace (name ∷ names) =
      Keeps-bind _ _ (Keeps-wrap _ _ _ (get_as_unstructured-Keeps _ _ _))
        λ x. Keeps-if _ _ _ (Keeps-pure _) (first_token-Keeps namespace names)

  get_token_from_service_account-Keeps :
      (k : Key) → Keeps L I (get_token_from_service_account A C k)
  unfolding get_token_from_service_account
  get_token_from_service_account-Keeps k =
      search (cluster_rules, get_as_unstructured-Keeps, first_token-Keeps)

  pub get_secret_if_exists-Keeps : (name : String) → Keeps L I (get_secret_if_exists A C name)
  unfolding get_secret_if_exists
  get_secret_if_exists-Keeps name = search cluster_rules

  get_kubeconfig_from_config_map-Keeps :
      (ca : String) → Keeps L I (get_kubeconfig_from_config_map C.source ca)
  unfolding get_kubeconfig_from_config_map
  get_kubeconfig_from_config_map-Keeps ca = search cluster_rules

  or_from_slices-Keeps :
      (ca : String) (q : Result Kubeconfig) → Keeps L I (or_from_slices C.source ca q)
  unfolding or_from_slices build_kubeconfig_from_endpoint_slice
  or_from_slices-Keeps ca (ok config) = search cluster_rules
  or_from_slices-Keeps ca (err e) = search cluster_rules

  get_kubeconfig-Keeps : (ca : String) → Keeps L I (get_kubeconfig C.source ca)
  unfolding get_kubeconfig
  get_kubeconfig-Keeps ca =
      search (cluster_rules, get_kubeconfig_from_config_map-Keeps, or_from_slices-Keeps)

  pub generate_kubeconfig-Keeps :
      (o : Options) (token : String) → Keeps L I (generate_kubeconfig A C o token)
  unfolding generate_kubeconfig
  generate_kubeconfig-Keeps o token = search (keeps_rules, get_kubeconfig-Keeps)

  module _ (create : (x : Secret) → Keeps L I (A.create_secret x))
      (update : (x : Secret) → Keeps L I (A.update_secret x)) where
    update_secret_expiration_and_get_token-Keeps :
        (x : Secret) → Keeps L I (update_secret_expiration_and_get_token A C x)
    unfolding update_secret_expiration_and_get_token renew
    update_secret_expiration_and_get_token-Keeps x = search (cluster_rules, update) depth 9

    create_token-Keeps : (name : String) → Keeps L I (create_token A C name)
    unfolding create_token
    create_token-Keeps name = search (cluster_rules, create) depth 9

    token_at-Keeps : (name : String) (o : Option Secret) → Keeps L I (token_at A C name o)
    unfolding token_at
    token_at-Keeps name none = search (cluster_rules, create_token-Keeps)
    token_at-Keeps name (some x) =
        search (cluster_rules, update_secret_expiration_and_get_token-Keeps)

    pub create_bootstrap_token-Keeps : (name : String) → Keeps L I (create_bootstrap_token A C name)
    unfolding create_bootstrap_token
    create_bootstrap_token-Keeps name =
        search (cluster_rules, get_secret_if_exists-Keeps, token_at-Keeps)

    get_token-Keeps :
        (o : Options) (key : Option Key) (name : String) → Keeps L I (get_token A C o key name)
    unfolding get_token
    get_token-Keeps o none name = search (cluster_rules, create_bootstrap_token-Keeps)
    get_token-Keeps o (some key) name = search (cluster_rules, get_token_from_service_account-Keeps)

    store_kubeconfig-Keeps :
        (name text : String) (updated : Bool) (q : Result Secret)
        → Keeps L I (store_kubeconfig A name text updated q)
    unfolding store_kubeconfig
    store_kubeconfig-Keeps name text updated (ok x) = search (keeps_rules, update)
    store_kubeconfig-Keeps name text updated (err e) = search (keeps_rules, create)

    -- What the writes of Secrets keep, CreateBootstrapKubeconfig keeps.
    pub create_bootstrap_kubeconfig-Keeps :
        (o : Options) (name : String) → Keeps L I (create_bootstrap_kubeconfig A C o name)
    unfolding create_bootstrap_kubeconfig
    create_bootstrap_kubeconfig-Keeps o name =
        Keeps-bind _ _ (get_token-Keeps o o.service_account name) λ (token, updated).
          search (keeps_rules, generate_kubeconfig-Keeps, store_kubeconfig-Keeps) depth 9

module _ {A : Api} (L : IsLawful A) (I : Content → Type 0) where
  token_in-Keeps : (o : Option String) → Keeps L I (token_in A o)
  unfolding token_in
  token_in-Keeps none = Keeps-raise _
  token_in-Keeps (some token) = Keeps-pure token

  pub extract_api_server_token-Keeps : Keeps L I (extract_api_server_token A)
  unfolding extract_api_server_token
  extract_api_server_token-Keeps = search (keeps_rules, token_in-Keeps)
