-- ===== src/Osp/Files.antt =====
-- osp_controller.go: loadDefaultOSPs and parseOSPFile, over a file system and a YAML decoder.
use operating_system_manager.Prelude.{String, ◌<>◌, List, [], ◌∷◌}
use operating_system_manager.Prelude.Text.{replace_all}
use operating_system_manager.Prelude.Dict.{Dict, insert}
use operating_system_manager.Prelude.Result.{Result, ok, wrap, ◌>>=◌}
use operating_system_manager.Crd.{Osp}

-- osps.FS and yamlutil.Unmarshal
pub record Files : Type 0 where
  pub read_dir : String → Result (List String)
  pub read_file : String → Result String
  pub unmarshal : String → Result Osp

-- strings.ReplaceAll(filename, ".yaml", "")
unfoldable pub osp_name : String → String
osp_name filename = replace_all filename ".yaml" ""

abbrev pub default_dir : String
default_dir = "default"

module _ (F : Files) where
  -- parseOSPFile
  unfoldable pub parse_osp_file : String → Result Osp
  parse_osp_file filename = do
    content ← F.read_file (default_dir <> ("/" <> filename))
    F.unmarshal content

  -- The loop of loadDefaultOSPs, from the map that is filled so far.
  unfoldable pub load_files : List String → Dict Osp → Result (Dict Osp)
  load_files [] osps = ok osps
  load_files (filename ∷ filenames) osps =
      wrap "failed to read OSP %s: %w" (filename ∷ []) (parse_osp_file filename) >>= λ osp.
      load_files filenames (insert (osp_name filename) osp osps)

  -- loadDefaultOSPs
  unfoldable pub load_default_osps : Result (Dict Osp)
  load_default_osps =
      wrap "failed to read OSPs default directory: %w" [] (F.read_dir default_dir) >>= λ filenames.
      load_files filenames []
