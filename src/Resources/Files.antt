-- ===== src/Resources/Files.antt =====
-- operating_system_config.go: the files of a profile, executed as templates. The template engine is
-- a parameter.
use operating_system_manager.Prelude.{
  String, ◌<>◌, none, some, List, [], ◌∷◌, ◌++◌, ◌==◌, if◌then◌else◌,
}
use operating_system_manager.Prelude.Int.{ℤ, pos, is_zero}
use operating_system_manager.Prelude.Dict.{Dict, insert, keys, value}
use operating_system_manager.Prelude.Result.{Result, ok, err, panicked, wrap, ◌>>=◌}
use operating_system_manager.Crd.{File, FileContentInline, ContainerRuntimeSpec, OspConfig, Osp}
use operating_system_manager.Resources.Data.{FilesData}

-- text/template with the program's functions: a new template that is named and parsed, a further
-- text that is parsed into it, and its execution.
pub record Engine : Type 1 where
  pub Template : Type 0
  pub parse_new : String → String → Result Template
  pub parse_more : Template → String → Result Template
  pub execute : Template → FilesData → Result String

-- selectAdditionalFiles
unfoldable pub runtime_files : String → List ContainerRuntimeSpec → List File
runtime_files container_runtime [] = []
runtime_files container_runtime (cr ∷ crs) =
    let rest = runtime_files container_runtime crs in
    if cr.name == container_runtime then cr.files else rest

unfoldable pub select_additional_files : OspConfig → String → List File
select_additional_files config container_runtime =
    runtime_files container_runtime config.supported_container_runtimes

-- The templates of the first container runtime of that name.
unfoldable pub runtime_templates : String → List ContainerRuntimeSpec → Dict String
runtime_templates container_runtime [] = []
runtime_templates container_runtime (cr ∷ crs) =
    let rest = runtime_templates container_runtime crs in
    if cr.name == container_runtime then cr.templates else rest

-- A range loop that writes each entry to a map.
unfoldable pub insert_all : Dict String → Dict String → Dict String
insert_all [] res = res
insert_all ((name, text) ∷ rest) res = insert_all rest (insert name text res)

-- templatesToRender: those of the container runtime, then those of the profile
unfoldable pub templates_to_render : OspConfig → String → Dict String
templates_to_render config container_runtime =
    insert_all config.templates
      (insert_all (runtime_templates container_runtime config.supported_container_runtimes) [])

-- addTemplatingSequence
unfoldable pub add_templating_sequence : String → String → String
add_templating_sequence name text =
    "\n{{- define \"" <> (name <> ("\" }}\n" <> (text <> "\n{{- end }}")))

-- `defaultFilePermissions` where the file has none
unfoldable pub or_default : ℤ → ℤ
or_default permissions = if is_zero permissions then pos 644 else permissions

unfoldable pub inline_data : File → Result FileContentInline
inline_data file = elim file.inline [ none ↦ err panicked | some inline ↦ ok inline ]

-- A file with its content rendered.
unfoldable pub populated : File → FileContentInline → String → File
populated file inline text = record file {
  permissions = or_default file.permissions;
  inline = some (record inline { text = text });
}

-- injectRegistryHostConfigs, at the sorted paths
unfoldable pub hosts_files : Dict String → List String → List File
hosts_files configs [] = []
hosts_files configs (path ∷ paths) =
    record {
      path = path;
      permissions = pos 600;
      inline = some (record { encoding = ""; text = value path configs });
    }
    ∷ hosts_files configs paths

unfoldable pub inject_registry_host_configs :
    (List String → List String) → List File → Dict String → List File
inject_registry_host_configs sort_strings files configs =
    files ++ hosts_files configs (sort_strings (keys configs))

module _ (E : Engine) where
  -- The loop over the additional templates.
  unfoldable pub parse_all : E.Template → List String → Result E.Template
  parse_all tmpl [] = ok tmpl
  parse_all tmpl (more ∷ rest) = E.parse_more tmpl more >>= λ tmpl'. parse_all tmpl' rest

  module _ (d : FilesData) where
    -- The loop over the templates to render.
    unfoldable pub render_templates : Dict String → Result (List String)
    render_templates [] = ok []
    render_templates ((name, text) ∷ rest) =
        wrap "failed to parse OSP template [%s]: %w" (name ∷ []) (E.parse_new name text) >>= λ tmpl.
        E.execute tmpl d >>= λ rendered. render_templates rest >>= λ templates.
        ok (add_templating_sequence name rendered ∷ templates)

    -- selectAdditionalTemplates
    unfoldable pub select_additional_templates : OspConfig → String → Result (List String)
    select_additional_templates config container_runtime =
        render_templates (templates_to_render config container_runtime)

    module _ (templates : List String) where
      -- One turn of populateFilesList.
      unfoldable pub populate_file : File → Result File
      populate_file file = inline_data file >>= λ inline.
          wrap "failed to parse OSP file [%s] template: %w" (file.path ∷ [])
            (E.parse_new file.path inline.text)
          >>= λ tmpl. parse_all tmpl templates >>= λ tmpl'.
              E.execute tmpl' d >>= λ text. ok (populated file inline text)

      -- populateFilesList
      unfoldable pub populate_files_list : List File → Result (List File)
      populate_files_list [] = ok []
      populate_files_list (file ∷ files) = populate_file file >>= λ pfile.
          populate_files_list files >>= λ pfiles. ok (pfile ∷ pfiles)

    -- renderedFiles
    unfoldable pub rendered_files : OspConfig → String → Result (List File)
    rendered_files config container_runtime =
        wrap "failed to add OSP templates: %w" []
          (select_additional_templates config container_runtime)
        >>= λ templates. wrap "failed to populate OSP file template: %w" [] (
            populate_files_list templates
              (config.files ++ select_additional_files config container_runtime))

    -- renderOSPFiles: the bootstrapping files and the provisioning files
    unfoldable pub render_osp_files :
        (List String → List String) → Osp → String → Dict String → Result (List File × List File)
    render_osp_files sort_strings osp container_runtime registry_host_configs =
        wrap "failed to render bootstrapping file templates: %w" []
          (rendered_files osp.spec.bootstrap_config container_runtime)
        >>= λ bootstrapping.
            wrap "failed to render provisioning file templates: %w" []
              (rendered_files osp.spec.provisioning_config container_runtime)
            >>= λ provisioning. ok (
              bootstrapping,
              inject_registry_host_configs sort_strings provisioning registry_host_configs,
            )
