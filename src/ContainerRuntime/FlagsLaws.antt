-- ===== src/ContainerRuntime/FlagsLaws.antt =====
-- What the configuration holds of the flags.
use Prim.Native.Char.{code}
use text.Mathlib.TextLemmas.{nil-append, cons-append, append_assoc}
use text.Mathlib.TextPositions.{starts_with-append}
use mathlib.Core.List.{append_assoc as list_append_assoc, append-nil}
use operating_system_manager.Prelude.{
  String, ◌<>◌, Bool, true, some, List, [], ◌∷◌, ◌++◌, map, ◌==◌, ◌&&◌, ◌≡◌, refl, sym, ◌∙◌, ap,
  Bool-cases, inl, inr, eq_iff, arith, if◌then◌else◌, not, nat_eq, starts_with,
}
use operating_system_manager.Prelude.Text.{split, split_2, trim_space}
use operating_system_manager.Finalizers.{contains}
use operating_system_manager.Prelude.Dict.{lookup, lookup-insert}
use operating_system_manager.Prelude.Result.{Result, ok, err, wrap, ok-injective, bind-eq-ok, ◌>>=◌}
use operating_system_manager.ContainerRuntime.Config.{
  Config, get, apply_opts, with_insecure_registries, with_registry_mirrors, with_sandbox_image,
  with_containerd_version, with_device_ownership,
}
use operating_system_manager.ContainerRuntime.Flags.{
  MirrorFlags, list_at, list_or_nil, append_at, set_parts, set_flag, trimmed, with_scheme,
  mirror_parts, match_mirror, add_mirror, add_mirror_flags, check_secret_ref, Opts, build_config,
}

pub list_at-append_at :
    (k j v : String) (fl : MirrorFlags)
    → list_at j (append_at k v fl) ≡ (if k == j then list_at j fl ++ (v ∷ []) else list_at j fl)
unfolding list_at list_or_nil append_at
list_at-append_at k j v fl = elim (Bool-cases (k == j)) [
  | inl same ↦ rw same (
      rw lookup-insert
        (rw same (ap (λ i. list_or_nil (lookup i fl) ++ (v ∷ [])) ((eq_iff k j).0 same))))
  | inr other ↦ rw other (rw lookup-insert (rw other refl))
]

-- A text without the separator.
unfoldable pub lacks : String → Bool
lacks String.[] = true
lacks (String.◌∷◌ c s) = not (nat_eq (code c) 61) && lacks s

split_2-eq : (v : String) → split_2 61 ("=" <> v) ≡ some ("", v)
unfolding split_2
split_2-eq v = rw (cons-append _ _ _) (rw (nil-append _) refl)

split_2-joined : (k v : String) → lacks k ≡ true → split_2 61 (k <> ("=" <> v)) ≡ some (k, v)
unfolding lacks split_2
split_2-joined String.[] v h = rw (nil-append _) (split_2-eq v)
split_2-joined (String.◌∷◌ c s) v h = elim (Bool-cases (nat_eq (code c) 61)) [
  | inl same ↦ absurd (ground arith)
  | inr other ↦ rw (cons-append _ _ _) (rw other (rw (split_2-joined s v (rw other at h)) refl))
]

-- A flag value `key=mirror`, where the key has no `=`, adds the mirror behind those of its key and
-- leaves the mirrors of all other keys.
pub set_flag-joined :
    (k v j : String) (fl : MirrorFlags)
    → lacks k ≡ true
    → (fl' : MirrorFlags) × (set_flag (k <> ("=" <> v)) fl ≡ ok fl')
      × (list_at j fl' ≡ (if k == j then list_at j fl ++ (v ∷ []) else list_at j fl))
unfolding set_flag set_parts
set_flag-joined k v j fl h =
    (append_at k v fl, rw (split_2-joined k v h) refl, list_at-append_at k j v fl)

abbrev pub AllHttp : List String → Type 0
AllHttp [] = Unit
AllHttp (m ∷ ms) = (starts_with m "http" ≡ true) × AllHttp ms

with_scheme-http : (m : String) → starts_with (with_scheme m) "http" ≡ true
unfolding with_scheme
with_scheme-http m = elim (Bool-cases (starts_with m "http")) [
  | inl has ↦ rw has has
  | inr lacking ↦ rw lacking (
      ap (λ t. starts_with t "http") (append_assoc "http" "s://" m)
      ∙ starts_with-append "http" ("s://" <> m))
]

-- The mirrors that the parts of a flag name for a registry: each part that is not blank, trimmed, is
-- a mirror with its registry or a mirror of docker.io, and gets a scheme where it has none.
unfoldable pub mirrors_for : String → List String → List String
mirrors_for r [] = []
mirrors_for r (raw ∷ raws) =
    let rest = mirrors_for r raws in
    let parts = mirror_parts (trim_space raw) (match_mirror (trim_space raw)) in
    if trim_space raw == "" then rest else if parts.0 == r then with_scheme parts.1 ∷ rest else rest

mirrors_for-AllHttp : (r : String) (raws : List String) → AllHttp (mirrors_for r raws)
unfolding mirrors_for
mirrors_for-AllHttp r [] = tt
mirrors_for-AllHttp r (raw ∷ raws) =
    let parts = mirror_parts (trim_space raw) (match_mirror (trim_space raw)) in
    elim (Bool-cases (trim_space raw == "")) [
      | inl blank ↦ rw blank (mirrors_for-AllHttp r raws)
      | inr used ↦ elim (Bool-cases (parts.0 == r)) [
        | inl same ↦ rw used (rw same (with_scheme-http parts.1, mirrors_for-AllHttp r raws))
        | inr other ↦ rw used (rw other (mirrors_for-AllHttp r raws))
      ]
    ]

trimmed-contains :
    (raws : List String) (a : String)
    → contains (trimmed raws) a ≡ (contains (map trim_space raws) a && not (a == ""))
unfolding trimmed contains
trimmed-contains [] a = refl
trimmed-contains (raw ∷ raws) a = ground (
  arith,
  trimmed-contains raws a,
  eq_iff (trim_space raw) "",
  eq_iff (trim_space raw) a,
  eq_iff a "",
)

module _ (check_url : String → Result (Unit {0})) where
  checked-added :
      (q : Result (Unit {0})) (registry mirror : String) (fl fl' : MirrorFlags)
      → (wrap "incorrect mirror provided: %w" [] q >>= λ _.
          ok (append_at registry (with_scheme mirror) fl))
        ≡ ok fl'
      → append_at registry (with_scheme mirror) fl ≡ fl'
  checked-added (ok _) registry mirror fl fl' h = ok-injective _ _ h
  checked-added (err e) registry mirror fl fl' h = cc

  add_mirror_flags-at :
      (raws : List String) (r : String) (fl fl' : MirrorFlags)
      → add_mirror_flags check_url (trimmed raws) fl ≡ ok fl'
      → list_at r fl' ≡ list_at r fl ++ mirrors_for r raws
  unfolding add_mirror_flags add_mirror trimmed mirrors_for
  add_mirror_flags-at [] r fl fl' h =
      ap (list_at r) (sym (ok-injective _ _ h)) ∙ sym (append-nil (list_at r fl))
  add_mirror_flags-at (raw ∷ raws) r fl fl' h =
      let m = trim_space raw in
      let parts = mirror_parts m (match_mirror m) in
      elim (Bool-cases (m == "")) [
        | inl blank ↦ rw blank (add_mirror_flags-at raws r fl fl' (rw blank at h))
        | inr used ↦
            let one = bind-eq-ok (add_mirror check_url m fl) _ (rw used at h) in
            let added =
              checked-added (check_url (with_scheme parts.1)) parts.0 parts.1 fl one.0 one.1 in
            let here =
              ap (list_at r) (sym added) ∙ list_at-append_at parts.0 r (with_scheme parts.1) fl in
            let rest = add_mirror_flags-at raws r one.0 fl' one.2 in
            elim (Bool-cases (parts.0 == r)) [
              | inl same ↦ rw used (
                  rw same (
                    rest
                    ∙ ap (λ l. l ++ mirrors_for r raws) (here ∙ rw same refl)
                    ∙ list_append_assoc (list_at r fl) (with_scheme parts.1 ∷ [])
                        (mirrors_for r raws)))
              | inr other ↦
                  rw used
                    (rw other (rest ∙ ap (λ l. l ++ mirrors_for r raws) (here ∙ rw other refl)))
            ]
      ]

  -- Where BuildConfig succeeds, the mirrors of each registry are those of the flags for it, followed
  -- by those that the list of mirrors names for it, in order and each starting with "http"; and the
  -- insecure registries are exactly the parts of their list, trimmed, that are not empty.
  pub build_config-mirrors :
      (opts : Opts) (cfg : Config) (r : String)
      → build_config check_url opts ≡ ok cfg
      → (list_at r cfg.registry_mirrors
          ≡ list_at r opts.containerd_registry_mirrors
            ++ mirrors_for r (split 44 opts.registry_mirrors))
        × AllHttp (mirrors_for r (split 44 opts.registry_mirrors))
        × ((a : String)
            → contains cfg.insecure_registries a
              ≡ (contains (map trim_space (split 44 opts.insecure_registries)) a && not (a == "")))
  unfolding build_config get apply_opts with_insecure_registries with_registry_mirrors
      with_sandbox_image with_containerd_version with_device_ownership
  build_config-mirrors opts cfg r h =
      let raws = split 44 opts.registry_mirrors in
      let one =
        bind-eq-ok (add_mirror_flags check_url (trimmed raws) opts.containerd_registry_mirrors) _
          h in
      let two = bind-eq-ok (check_secret_ref check_url opts.registry_credentials_secret) _ one.2 in
      let made = ok-injective _ _ two.2 in
      (
        ap (λ c. list_at r c.registry_mirrors) (sym made)
            ∙ add_mirror_flags-at raws r opts.containerd_registry_mirrors one.0 one.1,
        mirrors_for-AllHttp r raws,
        λ a.
            ap (λ c. contains c.insecure_registries a) (sym made)
            ∙ trimmed-contains (split 44 opts.insecure_registries) a,
      )
