-- ===== src/Bootstrap/Token.antt =====
-- kubeconfig.go: the bootstrap token of a MachineDeployment, a Secret of kube-system that the API
-- server accepts until it expires; or the token of a service account.
use operating_system_manager.Prelude.{
  String, ◌<>◌, ℕ, ◌+◌, ◌*◌, Bool, true, false, Option, none, some, List, [], ◌∷◌, ◌==◌, ltb,
  if◌then◌else◌, length,
}
use operating_system_manager.Prelude.Int.{sprint, pos}
use operating_system_manager.Prelude.Dict.{value, insert}
use operating_system_manager.Prelude.Result.{Result, ok, err, errorf}
use operating_system_manager.Prelude.Result
use operating_system_manager.Prelude.Exec.{Exec, pure, raise, lift, wrap, ◌>>=◌, ◌>>◌}
use operating_system_manager.Machine.{Key, Secret}
use operating_system_manager.Osc.Api.{Api}
use operating_system_manager.Bootstrap.Cluster.{Cluster}

-- In nanoseconds
abbrev pub minute : ℕ
minute = 60000000000

abbrev pub kube_system : String
kube_system = "kube-system"

abbrev pub name_label : String
name_label = "machinedeployment.k8s.io/name"

-- tokenFormatter
unfoldable pub format_token : String → String → String
format_token id secret = id <> ("." <> secret)

unfoldable pub token_of : Secret → String
token_of secret =
    format_token (value "token-id" secret.entries) (value "token-secret" secret.entries)

-- The token that a new Secret holds, at its two random texts and its expiration.
unfoldable pub token_secret : String → String → String → String → Secret
token_secret name id secret expiration = record {
  name = "bootstrap-token-" <> id;
  namespace = kube_system;
  annotations = [];
  labels = (name_label, name) ∷ [];
  kind = "bootstrap.kubernetes.io/token";
  immutable = false;
  entries =
      ("description", "bootstrap token for " <> name)
      ∷ ("token-id", id)
      ∷ ("token-secret", secret)
      ∷ ("expiration", expiration)
      ∷ ("usage-bootstrap-authentication", "true")
      ∷ ("usage-bootstrap-signing", "true")
      ∷ ("auth-extra-groups", "system:bootstrappers:machine-controller:default-node-token")
      ∷ [];
}

-- A call that does not fail.
abbrev pub always : {S A : Type 0} → (S → A × S) → Exec S A
always f s = let (a, s') = f s in (ok a, s')

module _ (A : Api) (C : Cluster A.State) where
  -- getAsUnstructured: an object of a registered kind, decoded from the JSON of the answer
  unfoldable pub get_as_unstructured :
      {B : Type 0} → String → (String → Result B) → Key → Exec A.State B
  get_as_unstructured kind unmarshal key = do
    target ← wrap "failed to get object: %w" [] (C.get_unstructured kind key)
    raw ←
        lift
          (Result.wrap "failed to marshal unstructured.Unstructured: %w" [] (C.marshal_json target))
    lift (
        Result.wrap "failed to marshal unstructured.Unstructued into %T: %w" (kind ∷ [])
          (unmarshal raw))

  -- The loop over the secrets of a service account.
  unfoldable pub first_token : String → List String → Exec A.State String
  first_token namespace [] = raise (errorf "no serviceAccountSecret found" [])
  first_token namespace (name ∷ names) =
      wrap "failed to get serviceAccountSecret: %w" [] (
        get_as_unstructured "Secret" C.unmarshal_secret
          (record { namespace = namespace; name = name }))
      >>= λ secret.
          let rest = first_token namespace names in
          if secret.kind == "kubernetes.io/service-account-token"
          then pure (value "token" secret.entries)
          else rest

  -- getTokenFromServiceAccount
  unfoldable pub get_token_from_service_account : Key → Exec A.State String
  get_token_from_service_account key = do
    sa ←
        wrap "failed to get serviceAccount %q: %w" ((key.namespace <> ("/" <> key.name)) ∷ [])
          (get_as_unstructured "ServiceAccount" C.unmarshal_service_account key)
    first_token sa.namespace sa.secrets

  -- The cases of getSecretIfExists on the listed Secrets.
  unfoldable pub at_most_one : String → List Secret → Result (Option Secret)
  at_most_one name [] = ok none
  at_most_one name (secret ∷ []) = ok (some secret)
  at_most_one name (a ∷ b ∷ rest) = err (
      errorf "expected to find exactly one secret for the given machine name =%s but found %d"
        (name ∷ sprint (pos (length (a ∷ b ∷ rest))) ∷ []))

  -- getSecretIfExists
  unfoldable pub get_secret_if_exists : String → Exec A.State (Option Secret)
  get_secret_if_exists name = do
    lift (C.check_label name)
    secrets ← C.list_secrets kube_system name_label name
    lift (at_most_one name secrets)

  -- The Secret with an expiration of an hour from `t`.
  unfoldable pub renewed : Secret → ℕ → Secret
  renewed secret t = record secret {
    entries = insert "expiration" (C.format_time (t + 60 * minute)) secret.entries;
  }

  -- `time.Until(expirationTime).Minutes() < 30`, at the time `t`
  unfoldable pub expires_soon : ℕ → ℕ → Bool
  expires_soon expiration t = ltb expiration (t + 30 * minute)

  unfoldable pub renew : Secret → Exec A.State (Unit {0})
  renew secret = do
    t ← always C.now
    wrap "failed to update secret: %w" [] (A.update_secret (renewed secret t))

  -- updateSecretExpirationAndGetToken
  unfoldable pub update_secret_expiration_and_get_token : Secret → Exec A.State String
  update_secret_expiration_and_get_token secret = do
    expiration ← lift (C.parse_time (value "expiration" secret.entries))
    t ← always C.now
    if expires_soon expiration t then renew secret else pure tt
    pure (token_of secret)

  -- The part of createBootstrapToken that runs where no Secret was found.
  unfoldable pub create_token : String → Exec A.State String
  create_token name = do
    id ← always (C.random_text 6)
    secret ← always (C.random_text 16)
    t ← always C.now
    wrap "failed to create bootstrap token secret: %w" []
        (A.create_secret (token_secret name id secret (C.format_time (t + 60 * minute))))
    pure (format_token id secret)

  -- The token, and whether it is that of a Secret that was there.
  unfoldable pub token_at : String → Option Secret → Exec A.State (String × Bool)
  token_at name (some secret) = do
    token ←
        wrap "failed to update bootstrap token: %w" []
          (update_secret_expiration_and_get_token secret)
    pure (token, true)
  token_at name none = do token ← create_token name; pure (token, false)

  -- createBootstrapToken
  unfoldable pub create_bootstrap_token : String → Exec A.State (String × Bool)
  create_bootstrap_token name = do existing ← get_secret_if_exists name; token_at name existing
