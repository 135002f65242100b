-- ===== src/ContainerRuntime/Flags.antt =====
-- pkg/containerruntime/flags.go and config.go: the flags of the program that become a configuration.
use Prim.Native.Char.{Char, code}
use operating_system_manager.Prelude.{
  String, ◌<>◌, Bool, true, Option, none, some, List, [], ◌∷◌, ◌++◌, map, ◌==◌, ◌&&◌, ◌||◌, not,
  if◌then◌else◌, length, leb, nat_eq, starts_with,
}
use operating_system_manager.Prelude.Text.{split, split_2, trim_space, before}
use operating_system_manager.Prelude.Dict.{Dict, lookup, insert, keys, value}
use operating_system_manager.Prelude.Result.{Result, ok, err, errorf, wrap, ◌>>=◌}
use operating_system_manager.Prelude.Exec.{Exec, pure, lift}
use operating_system_manager.Prelude.Exec
use operating_system_manager.Machine.{Key, Secret}
use operating_system_manager.ContainerRuntime.Config.{
  AuthConfig, Config, get, with_insecure_registries, with_registry_mirrors, with_sandbox_image,
  with_containerd_version, with_device_ownership,
}

-- RegistryMirrorsFlags
abbrev pub MirrorFlags : Type 0
MirrorFlags = Dict (List String)

unfoldable pub list_or_nil : Option (List String) → List String
list_or_nil none = []
list_or_nil (some xs) = xs

-- The list of a key, nil where it is missing.
unfoldable pub list_at : String → MirrorFlags → List String
unfolding list_or_nil
list_at k fl = list_or_nil (lookup k fl)

-- `fl[key] = append(fl[key], value)`
unfoldable pub append_at : String → String → MirrorFlags → MirrorFlags
append_at k v fl = insert k (list_at k fl ++ (v ∷ [])) fl

unfoldable pub set_parts : Option (String × String) → MirrorFlags → Result MirrorFlags
set_parts none fl = err (errorf "should have exactly 1 =" [])
set_parts (some (k, v)) fl = ok (append_at k v fl)

-- Set
unfoldable pub set_flag : String → MirrorFlags → Result MirrorFlags
set_flag val fl = set_parts (split_2 61 val) fl

unfoldable pub flag_lines : MirrorFlags → List String → List String
flag_lines fl [] = []
flag_lines fl (name ∷ names) =
    map (λ mirror. name <> ("=" <> mirror)) (list_at name fl) ++ flag_lines fl names

-- The texts of a slice as `%s` prints them, without the brackets.
unfoldable pub sprint_items : List String → String
sprint_items [] = ""
sprint_items (x ∷ []) = x
sprint_items (x ∷ y ∷ ys) = x <> (" " <> sprint_items (y ∷ ys))

-- String, where the parameter sorts the names
unfoldable pub flags_string : (List String → List String) → MirrorFlags → String
flags_string sort fl = "[" <> (sprint_items (flag_lines fl (sort (keys fl))) <> "]")

pub record Opts : Type 0 where
  pub container_runtime : String
  pub containerd_version : String
  pub insecure_registries : String
  pub registry_mirrors : String
  pub registry_credentials_secret : String
  pub pause_image : String
  pub containerd_registry_mirrors : MirrorFlags
  pub device_ownership_from_security_context : Bool

-- The loop over the insecure registries.
unfoldable pub trimmed : List String → List String
trimmed [] = []
trimmed (x ∷ xs) = let rest = trimmed xs in if trim_space x == "" then rest else trim_space x ∷ rest

-- [a-zA-Z0-9\.-]
unfoldable pub is_host_char : Char → Bool
is_host_char c =
    let n = code c in
    (leb 97 n && leb n 122)
    || (leb 65 n && leb n 90)
    || (leb 48 n && leb n 57)
    || nat_eq n 46
    || nat_eq n 45

unfoldable pub all_host_chars : String → Bool
all_host_chars String.[] = true
all_host_chars (String.◌∷◌ c s) = is_host_char c && all_host_chars s

unfoldable pub match_parts : Option (String × String) → Option (String × String)
match_parts none = none
match_parts (some (a, b)) =
    if not (a == "") && all_host_chars a then some (a, before 10 b) else none

-- The submatches of `^([a-zA-Z0-9\.-]+)=(.*)`: no character of the class is the separator, and a
-- dot matches no line feed.
unfoldable pub match_mirror : String → Option (String × String)
match_mirror s = match_parts (split_2 61 s)

-- The registry and the mirror of an entry.
unfoldable pub mirror_parts : String → Option (String × String) → String × String
mirror_parts mirror none = ("docker.io", mirror)
mirror_parts mirror (some (registry, rest)) = (registry, rest)

unfoldable pub with_scheme : String → String
with_scheme mirror = if starts_with mirror "http" then mirror else "https://" <> mirror

module _ (check_url : String → Result (Unit {0})) where
  -- One entry of the loop over the mirrors, trimmed; `check_url` stands for url.Parse.
  unfoldable pub add_mirror : String → MirrorFlags → Result MirrorFlags
  add_mirror mirror fl =
      let (registry, rest) = mirror_parts mirror (match_mirror mirror) in
      wrap "incorrect mirror provided: %w" [] (check_url (with_scheme rest)) >>= λ _.
      ok (append_at registry (with_scheme rest) fl)

  -- The loop over the mirrors.
  unfoldable pub add_mirror_flags : List String → MirrorFlags → Result MirrorFlags
  add_mirror_flags [] fl = ok fl
  add_mirror_flags (m ∷ ms) fl = add_mirror m fl >>= λ fl'. add_mirror_flags ms fl'

  unfoldable pub check_secret_ref : String → Result (Unit {0})
  check_secret_ref ref =
      if ref == ""
      then ok tt
      else if nat_eq (length (split 47 ref)) 2
      then ok tt
      else err (
          errorf
            "-node-registry-credentials-secret is in incorrect format %q, should be in 'namespace/secretname'"
            (ref ∷ []))

  -- BuildConfig
  unfoldable pub build_config : Opts → Result Config
  build_config opts =
      add_mirror_flags (trimmed (split 44 opts.registry_mirrors)) opts.containerd_registry_mirrors
      >>= λ mirrors. check_secret_ref opts.registry_credentials_secret >>= λ _. ok (
          get opts.container_runtime (
            with_insecure_registries (trimmed (split 44 opts.insecure_registries))
            ∷ with_registry_mirrors mirrors
            ∷ with_sandbox_image opts.pause_image
            ∷ with_containerd_version opts.containerd_version
            ∷ with_device_ownership opts.device_ownership_from_security_context
            ∷ []))

-- The JSON decoders for the two kinds of credentials.
pub record Credentials : Type 0 where
  pub docker_config : String → Result (Dict AuthConfig)
  pub auth_config : String → Result AuthConfig

module _ (J : Credentials) where
  -- The loop over the entries of the Secret.
  unfoldable pub registry_credentials : Dict String → Dict AuthConfig → Result (Dict AuthConfig)
  registry_credentials [] credentials = ok credentials
  registry_credentials ((registry, raw) ∷ rest) credentials =
      wrap "failed to unmarshal registry credentials: %w" [] (J.auth_config raw) >>= λ auth.
      registry_credentials rest (insert registry auth credentials)

  unfoldable pub secret_credentials : Secret → Result (Dict AuthConfig)
  secret_credentials secret =
      if secret.kind == "kubernetes.io/dockerconfigjson"
      then wrap "failed to unmarshal registry credentials: %w" []
          (J.docker_config (value ".dockerconfigjson" secret.entries))
      else registry_credentials secret.entries []

  module _ {S : Type 0} (get_secret : Key → Exec S Secret) where
    unfoldable pub credentials_at : Option (String × String) → Exec S (Dict AuthConfig)
    credentials_at none = pure []
    credentials_at (some (namespace, name)) =
        Exec.◌>>=◌
          (Exec.wrap "failed to retrieve registry credentials secret object: %w" []
            (get_secret (record { namespace = namespace; name = name })))
          (λ secret. lift (secret_credentials secret))

    -- GetContainerdAuthConfig
    unfoldable pub get_containerd_auth_config : String → Exec S (Dict AuthConfig)
    get_containerd_auth_config ref = credentials_at (split_2 47 ref)
