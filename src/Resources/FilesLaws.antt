-- ===== src/Resources/FilesLaws.antt =====
-- The files of a generated OSC: those of the profile in their order, and the hosts files of the
-- registries.
use mathlib.Core.Path.{subst}
use operating_system_manager.Prelude.{
  String, true, false, some, Option-cases, Bool-cases, inl, inr, List, [], ◌∷◌, ◌++◌, ◌≡◌, refl, ap,
  ◌∙◌, ◌==◌,
}
use operating_system_manager.Prelude.Int.{ℤ, pos, is_zero}
use operating_system_manager.Prelude.Dict.{Dict, keys, value}
use operating_system_manager.Prelude.Result.{ok, wrap, ok-injective, bind-eq-ok, wrap-eq-ok}
use operating_system_manager.Crd.{FileContentInline, File, OspConfig, Osp, Osc, rhel}
use operating_system_manager.Machine.{ProviderConfig}
use operating_system_manager.Osc.Api.{Settings, OscRequest}
use operating_system_manager.Resources.Data.{FilesData}
use operating_system_manager.Resources.Files.{
  Engine, inline_data, or_default, populated, hosts_files, inject_registry_host_configs,
  populate_file, populate_files_list, rendered_files, render_osp_files, select_additional_files,
  parse_all, render_templates, templates_to_render, select_additional_templates,
}
use operating_system_manager.Resources.Generate.{
  Tools, render_osc, generate_operating_system_config, configure_rhel_subscription, subscribed,
  build_osc_spec, osc_config,
}
use operating_system_manager.Resources.Laws.{Generates, generate-Generates}

-- The file of an OSC that a file of the profile is rendered to: the executed template, with the
-- further templates parsed into it; the permissions are those of the file, or 644 where it has none.
pub record IsRenderedFile (E : Engine) (d : FilesData) (templates : List String) (f p : File)
    : Type 0 where
  pub path : p.path ≡ f.path
  pub kept : is_zero f.permissions ≡ false → p.permissions ≡ f.permissions
  pub defaulted : is_zero f.permissions ≡ true → p.permissions ≡ pos 644
  pub source : FileContentInline
  pub given : f.inline ≡ some source
  pub own : E.Template
  pub own_parsed : E.parse_new f.path source.text ≡ ok own
  pub full : E.Template
  pub all_parsed : parse_all E own templates ≡ ok full
  pub text : String
  pub executed : E.execute full d ≡ ok text
  pub written : p.inline ≡ some (record source { text = text })

abbrev pub AllRendered : (E : Engine) → FilesData → List String → List File → List File → Type 0
AllRendered E d templates [] [] = Unit
AllRendered E d templates [] (p ∷ ps) = ⊥
AllRendered E d templates (f ∷ fs) [] = ⊥
AllRendered E d templates (f ∷ fs) (p ∷ ps) =
    IsRenderedFile E d templates f p × AllRendered E d templates fs ps

-- The files of a profile and the templates that it brings along, and the files they are rendered to.
abbrev pub IsPopulated : (E : Engine) → FilesData → List File × Dict String → List File → Type 0
IsPopulated E d sources ps =
    (templates : List String) × (render_templates E d sources.1 ≡ ok templates)
    × AllRendered E d templates sources.0 ps

or_default-kept : (p : ℤ) → is_zero p ≡ false → or_default p ≡ p
unfolding or_default
or_default-kept p set = rw set refl

or_default-unset : (p : ℤ) → is_zero p ≡ true → or_default p ≡ pos 644
unfolding or_default
or_default-unset p unset = rw unset refl

inline_data-given : (f : File) (x : FileContentInline) → inline_data f ≡ ok x → f.inline ≡ some x
unfolding inline_data
inline_data-given f x h = elim (Option-cases f.inline) [
  | inl absent ↦ absurd (cc (rw absent at h))
  | inr there ↦ there.1 ∙ ap some (ok-injective _ _ (rw there.1 at h))
]

module _ (E : Engine) (d : FilesData) (templates : List String) where
  populate_file-IsRenderedFile :
      (f : File) {p : File}
      → populate_file E d templates f ≡ ok p
      → IsRenderedFile E d templates f p
  unfolding populate_file populated
  populate_file-IsRenderedFile f {p} h =
      let one = bind-eq-ok (inline_data f) _ h in
      let two = bind-eq-ok (wrap _ _ (E.parse_new f.path one.0.text)) _ one.2 in
      let three = bind-eq-ok (parse_all E two.0 templates) _ two.2 in
      let four = bind-eq-ok (E.execute three.0 d) _ three.2 in
      subst (IsRenderedFile E d templates f) (ok-injective (populated f one.0 four.0) p four.2)
        (record {
          path = refl;
          kept = or_default-kept f.permissions;
          defaulted = or_default-unset f.permissions;
          source = one.0;
          given = inline_data-given f one.0 one.1;
          own = two.0;
          own_parsed = wrap-eq-ok _ _ (E.parse_new f.path one.0.text) two.1;
          full = three.0;
          all_parsed = three.1;
          text = four.0;
          executed = four.1;
          written = refl;
        })

  populate_files_list-AllRendered :
      (files : List File) {ps : List File}
      → populate_files_list E d templates files ≡ ok ps
      → AllRendered E d templates files ps
  unfolding populate_files_list
  populate_files_list-AllRendered [] h =
      subst (AllRendered E d templates []) (ok-injective _ _ h) tt
  populate_files_list-AllRendered (f ∷ fs) h =
      let one = bind-eq-ok (populate_file E d templates f) _ h in
      let two = bind-eq-ok (populate_files_list E d templates fs) _ one.2 in
      subst (AllRendered E d templates (f ∷ fs)) (ok-injective _ _ two.2)
        (populate_file-IsRenderedFile f one.1, populate_files_list-AllRendered fs two.1)

-- The files of a configuration, before they are rendered, and its templates.
abbrev pub sources_of : OspConfig → String → List File × Dict String
sources_of config container_runtime = (
  config.files ++ select_additional_files config container_runtime,
  templates_to_render config container_runtime,
)

rendered_files-IsPopulated :
    (E : Engine) (d : FilesData) (config : OspConfig) (container_runtime : String)
    {files : List File}
    → rendered_files E d config container_runtime ≡ ok files
    → IsPopulated E d (sources_of config container_runtime) files
unfolding rendered_files select_additional_templates
rendered_files-IsPopulated E d config container_runtime h =
    let one =
      bind-eq-ok (wrap _ _ (select_additional_templates E d config container_runtime)) _ h in
    (
      one.0,
      wrap-eq-ok _ _ (select_additional_templates E d config container_runtime) one.1,
      populate_files_list-AllRendered E d one.0 _
          (wrap-eq-ok _ _ (populate_files_list E d one.0 _) one.2),
    )

-- The hosts files, one for each path.
abbrev pub AreHosts : Dict String → List String → List File → Type 0
AreHosts configs [] [] = Unit
AreHosts configs [] (f ∷ fs) = ⊥
AreHosts configs (p ∷ ps) [] = ⊥
AreHosts configs (p ∷ ps) (f ∷ fs) =
    (f.path ≡ p)
    × (f.permissions ≡ pos 600)
    × (f.inline ≡ some (record { encoding = ""; text = value p configs }))
    × AreHosts configs ps fs

hosts_files-AreHosts :
    (configs : Dict String) (ps : List String) → AreHosts configs ps (hosts_files configs ps)
unfolding hosts_files
hosts_files-AreHosts configs [] = tt
hosts_files-AreHosts configs (p ∷ ps) = (refl, refl, refl, hosts_files-AreHosts configs ps)

-- The files of a profile, rendered, and behind them the hosts files.
pub record IsRendered (E : Engine) (d : FilesData) (sources : List File × Dict String)
    (configs : Dict String) (paths : List String) (rendered : List File) : Type 0 where
  pub own : List File
  pub hosts : List File
  pub parts : rendered ≡ own ++ hosts
  pub populated : IsPopulated E d sources own
  pub are_hosts : AreHosts configs paths hosts

inject-IsRendered :
    (E : Engine) (d : FilesData) (sources : List File × Dict String)
    (sort_strings : List String → List String) (files : List File) (configs : Dict String)
    → IsPopulated E d sources files
    → IsRendered E d sources configs
        (sort_strings (keys configs))
        (inject_registry_host_configs sort_strings files configs)
unfolding inject_registry_host_configs
inject-IsRendered E d sources sort_strings files configs h = record {
  own = files;
  hosts = hosts_files configs (sort_strings (keys configs));
  parts = refl;
  populated = h;
  are_hosts = hosts_files-AreHosts configs (sort_strings (keys configs));
}

render_osp_files-IsRendered :
    (E : Engine) (d : FilesData) (sort_strings : List String → List String) (osp : Osp)
    (container_runtime : String) (configs : Dict String) {files : List File × List File}
    → render_osp_files E d sort_strings osp container_runtime configs ≡ ok files
    → IsPopulated E d (sources_of osp.spec.bootstrap_config container_runtime) files.0
      × IsRendered E d
          (sources_of osp.spec.provisioning_config container_runtime)
          configs
          (sort_strings (keys configs))
          files.1
unfolding render_osp_files
render_osp_files-IsRendered E d sort_strings osp rc configs h =
    let one = bind-eq-ok (wrap _ _ (rendered_files E d osp.spec.bootstrap_config rc)) _ h in
    let two = bind-eq-ok (wrap _ _ (rendered_files E d osp.spec.provisioning_config rc)) _ one.2 in
    let made = ok-injective _ _ two.2 in
    (
      subst (IsPopulated E d (sources_of osp.spec.bootstrap_config rc)) (ap (λ p. p.0) made) (
          rendered_files-IsPopulated E d osp.spec.bootstrap_config rc
            (wrap-eq-ok _ _ (rendered_files E d _ rc) one.1)),
      subst
          (IsRendered E d (sources_of osp.spec.provisioning_config rc) configs
            (sort_strings (keys configs)))
          (ap (λ p. p.1) made)
          (inject-IsRendered E d _ sort_strings two.0 configs (
            rendered_files-IsPopulated E d osp.spec.provisioning_config rc
              (wrap-eq-ok _ _ (rendered_files E d _ rc) two.1))),
    )

-- The subscription changes no file and no template.
module _ (config : ProviderConfig) (osp : Osp) (d : FilesData) (container_runtime : String) where
  subscription-bootstrap :
      sources_of (configure_rhel_subscription config osp d).spec.bootstrap_config container_runtime
      ≡ sources_of osp.spec.bootstrap_config container_runtime
  unfolding configure_rhel_subscription subscribed select_additional_files templates_to_render
  subscription-bootstrap = elim (Bool-cases (config.operating_system == rhel)) [
    | inl red_hat ↦ rw red_hat refl
    | inr other ↦ rw other refl
  ]

  subscription-provisioning :
      sources_of
        (configure_rhel_subscription config osp d).spec.provisioning_config
        container_runtime
      ≡ sources_of osp.spec.provisioning_config container_runtime
  unfolding configure_rhel_subscription subscribed select_additional_files templates_to_render
  subscription-provisioning = elim (Bool-cases (config.operating_system == rhel)) [
    | inl red_hat ↦ rw red_hat refl
    | inr other ↦ rw other refl
  ]

-- The files of the two configurations of an OSC, from its profile, the data of the machine and the
-- hosts files.
pub record HasFiles (E : Engine) (d : FilesData) (q : OscRequest) (r : Settings)
    (hosts : Dict String) (paths : List String) (osc : Osc) : Type 0 where
  pub bootstrapping :
      IsPopulated E d
        (sources_of q.osp.spec.bootstrap_config r.container_runtime)
        osc.spec.bootstrap_config.files
  pub provisioning :
      IsRendered E d
        (sources_of q.osp.spec.provisioning_config r.container_runtime)
        hosts
        paths
        osc.spec.provisioning_config.files

module _ (T : Tools) (q : OscRequest) (r : Settings) where
  render_osc-HasFiles :
      (config : ProviderConfig) (hosts : Dict String) (d : FilesData) {osc : Osc}
      → render_osc T q r config hosts d ≡ ok osc
      → HasFiles T.engine d q r hosts (T.hosts.sort_strings (keys hosts)) osc
  unfolding render_osc build_osc_spec osc_config
  render_osc-HasFiles config hosts d h =
      let osp = configure_rhel_subscription config q.osp d in
      let rc = r.container_runtime in
      let sort_strings = T.hosts.sort_strings in
      let paths = sort_strings (keys hosts) in
      let one = bind-eq-ok (render_osp_files T.engine d sort_strings osp rc hosts) _ h in
      let rendered = render_osp_files-IsRendered T.engine d sort_strings osp rc hosts one.1 in
      subst (HasFiles T.engine d q r hosts paths) (ok-injective _ _ one.2) (record {
        bootstrapping =
            subst (λ fs. IsPopulated T.engine d fs one.0.0)
              (subscription-bootstrap config q.osp d rc) rendered.0;
        provisioning =
            subst (λ fs. IsRendered T.engine d fs hosts paths one.0.1)
              (subscription-provisioning config q.osp d rc) rendered.1;
      })

  -- The files of a generated OSC are those of its profile and of the first container runtime of the
  -- configured name, in this order: each is the execution of its template, with the templates of the
  -- profile, on the data built for the machine, and has its own permissions or else 644. Behind the
  -- provisioning files stand the hosts files of the container runtime with their texts, in sorted
  -- order.
  pub generate-HasFiles :
      {osc : Osc}
      → generate_operating_system_config T q r ≡ ok osc
      → (g : Generates T q r osc) × HasFiles T.engine g.files_data q r g.runtime.2
          (T.hosts.sort_strings (keys g.runtime.2))
          osc
  generate-HasFiles h =
      let g = generate-Generates T q r h in
      (g, render_osc-HasFiles g.config g.runtime.2 g.files_data g.generated)
