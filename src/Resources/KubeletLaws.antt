-- ===== src/Resources/KubeletLaws.antt =====
-- The numbers among the kubelet's settings.
use mathlib.Core.Path.{subst}
use operating_system_manager.Prelude.{String, Option, none, some, [], ◌∷◌, ◌≡◌, refl, sym, ◌∙◌}
use operating_system_manager.Prelude.Int.{ℤ, sprint}
use operating_system_manager.Prelude.ParseInt.{parse_int32}
use operating_system_manager.Prelude.ParseInt.Laws.{
  IsInt32, parse_int32-IsInt32, parse_int32-sprint,
}
use operating_system_manager.Prelude.Dict.{Dict, lookup}
use operating_system_manager.Prelude.Result.{ok, wrap, ok-injective, bind-eq-ok, wrap-eq-ok}
use operating_system_manager.Resources.Data.{KubeletConfig}
use operating_system_manager.Resources.Kubelet.{
  KubeletKeys, parsed, read_kubelet_configs, get_kubelet_configs, get_kubelet_config_map,
  unless_empty,
}

-- A setting that is there is a number of 32 bits, the one that its text is the decimal form of.
abbrev pub IsRead : Option String → Option ℤ → Type 0
IsRead none number = number ≡ none
IsRead (some text) number =
    (z : ℤ) × (number ≡ some z) × IsInt32 z × ((y : ℤ) → IsInt32 y → text ≡ sprint y → y ≡ z)

parsed-IsRead :
    (message : String) (o : Option String) {number : Option ℤ}
    → parsed parse_int32 message o ≡ ok number
    → IsRead o number
unfolding parsed
parsed-IsRead message none h = sym (ok-injective _ _ h)
parsed-IsRead message (some text) h =
    let one = bind-eq-ok (wrap message [] (parse_int32 text)) _ h in
    let read = wrap-eq-ok message [] (parse_int32 text) one.1 in
    (
      one.0,
      sym (ok-injective _ _ one.2),
      parse_int32-IsInt32 text read,
      λ y range same.
          ok-injective _ _
            (sym (parse_int32-sprint y range) ∙ subst (λ t. parse_int32 t ≡ ok one.0) same read),
    )

module _ (K : KubeletKeys) where
  -- The three numbers, from the map of settings.
  pub record HasNumbers (configs : Dict String) (cfg : KubeletConfig) : Type 0 where
    pub max_pods : IsRead (lookup K.max_pods configs) cfg.max_pods
    pub high :
        IsRead
          (lookup K.image_gc_high_threshold_percent configs)
          cfg.image_gc_high_threshold_percent
    pub low :
        IsRead (lookup K.image_gc_low_threshold_percent configs) cfg.image_gc_low_threshold_percent

  read_kubelet_configs-HasNumbers :
      (configs : Dict String) {cfg : KubeletConfig}
      → read_kubelet_configs K configs ≡ ok cfg
      → HasNumbers configs cfg
  unfolding read_kubelet_configs
  read_kubelet_configs-HasNumbers configs h =
      let one = bind-eq-ok (parsed parse_int32 _ (lookup K.max_pods configs)) _ h in
      let two =
        bind-eq-ok (parsed parse_int32 _ (lookup K.image_gc_high_threshold_percent configs)) _
          one.2 in
      let three =
        bind-eq-ok (parsed parse_int32 _ (lookup K.image_gc_low_threshold_percent configs)) _
          two.2 in
      let four =
        bind-eq-ok (parsed K.parse_duration _ (lookup K.image_minimum_gc_age configs)) _ three.2 in
      let five =
        bind-eq-ok (parsed K.parse_duration _ (lookup K.image_maximum_gc_age configs)) _ four.2 in
      subst (HasNumbers configs) (ok-injective _ _ five.2) (record {
        max_pods = parsed-IsRead _ _ one.1;
        high = parsed-IsRead _ _ two.1;
        low = parsed-IsRead _ _ three.1;
      })

  unless_empty-HasNumbers :
      (configs : Dict String) {cfg : KubeletConfig}
      → unless_empty K configs ≡ ok cfg
      → HasNumbers configs cfg
  unfolding lookup
  unless_empty-HasNumbers [] h =
      subst (HasNumbers []) (ok-injective _ _ h)
        (record { max_pods = refl; high = refl; low = refl })
  unless_empty-HasNumbers (c ∷ configs) h = read_kubelet_configs-HasNumbers (c ∷ configs) h

  -- Kubelet settings that are accepted hold the number of pods and both thresholds of the image
  -- garbage collection exactly where these are given, each a number of 32 bits; where the text is the
  -- decimal form of such a number, it is that number.
  pub get_kubelet_configs-HasNumbers :
      (annotations : Dict String) {cfg : KubeletConfig}
      → get_kubelet_configs K annotations ≡ ok cfg
      → HasNumbers (get_kubelet_config_map K annotations) cfg
  unfolding get_kubelet_configs
  get_kubelet_configs-HasNumbers annotations h = unless_empty-HasNumbers _ h
