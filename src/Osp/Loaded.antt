-- ===== src/Osp/Loaded.antt =====
-- The map of default OSPs, against the files of the directory.
use mathlib.Core.Path.{subst}
use mathlib.Core.Option.{some-injective}
use operating_system_manager.Prelude.{
  String, true, some, List, [], ◌∷◌, map, ◌==◌, ◌≡◌, refl, sym, ◌∙◌, ◌⊎◌, Bool-cases, inl, inr,
  eq_iff, eq_refl, ap, arith,
}
use operating_system_manager.Prelude.Dict.{Dict, lookup, insert, lookup-insert}
use operating_system_manager.Prelude.Result.{Result, ok, err, ok-injective, ◌>>=◌, wrap}
use operating_system_manager.Crd.{Osp}
use operating_system_manager.Finalizers.{contains}
use operating_system_manager.Osp.Files.{
  Files, osp_name, default_dir, parse_osp_file, load_files, load_default_osps,
}

module _ (F : Files) where
  -- A default OSP is what one of the files holds, under the name of that file.
  abbrev pub FromFile : List String → String → Osp → Type 0
  FromFile files name osp =
      (file : String) × (contains files file ≡ true)
      × (osp_name file ≡ name)
      × (parse_osp_file F file ≡ ok osp)

  abbrev pub Parses : String → Type 0
  Parses file = (osp : Osp) × (parse_osp_file F file ≡ ok osp)

  load_files-cases :
      (file : String) (files : List String) (osps : Dict Osp) (r : Result Osp) {all : Dict Osp}
      → (wrap "failed to read OSP %s: %w" (file ∷ []) r >>= λ osp.
          load_files F files (insert (osp_name file) osp osps))
        ≡ ok all
      → (osp : Osp) × (r ≡ ok osp) × (load_files F files (insert (osp_name file) osp osps) ≡ ok all)
  load_files-cases file files osps (ok osp) h = (osp, refl, h)
  load_files-cases file files osps (err e) h = cc

  inserted :
      (f : String) (fs : List String) (x : Osp) (osps : Dict Osp) (name : String)
      → ((osp : Osp) × (lookup name osps ≡ some osp))
        ⊎ (contains (map osp_name (f ∷ fs)) name ≡ true)
      → ((osp : Osp) × (lookup name (insert (osp_name f) x osps) ≡ some osp))
        ⊎ (contains (map osp_name fs) name ≡ true)
  unfolding contains
  inserted f fs x osps name has = elim (Bool-cases (osp_name f == name)) [
    | inl same ↦ inl (x, lookup-insert (osp_name f) name x osps ∙ rw same refl)
    | inr other ↦ elim has [
      | inl old ↦ inl (old.0, lookup-insert (osp_name f) name x osps ∙ rw other old.1)
      | inr listed ↦ inr (rw other at listed)
    ]
  ]

  -- Where the load succeeds, every default OSP comes from a file of the directory, or was in the
  -- map at the start.
  load_files-from :
      (files : List String) (osps all : Dict Osp) (name : String) (osp : Osp)
      → load_files F files osps ≡ ok all
      → lookup name all ≡ some osp
      → FromFile files name osp ⊎ (lookup name osps ≡ some osp)
  unfolding load_files contains
  load_files-from [] osps all name osp h found =
      inr (subst (λ m. lookup name m ≡ some osp) (sym (ok-injective _ _ h)) found)
  load_files-from (f ∷ fs) osps all name osp h found =
      let one = load_files-cases f fs osps (parse_osp_file F f) h in
      elim (load_files-from fs _ all name osp one.2 found) [
        | inl later ↦ inl (later.0, ground (arith, later.1), later.2, later.3)
        | inr there ↦
            let here = sym (lookup-insert (osp_name f) name one.0 osps) ∙ there in
            elim (Bool-cases (osp_name f == name)) [
              | inl same ↦ inl (
                f,
                ground (arith, eq_refl f),
                (eq_iff _ _).0 same,
                one.1 ∙ ap ok (some-injective _ _ (rw same at here)),
              )
              | inr other ↦ inr (rw other at here)
            ]
      ]

  -- What is in the map once stays in it, and every file adds its name.
  load_files-has :
      (files : List String) (osps all : Dict Osp) (name : String)
      → load_files F files osps ≡ ok all
      → ((osp : Osp) × (lookup name osps ≡ some osp)) ⊎ (contains (map osp_name files) name ≡ true)
      → (osp : Osp) × (lookup name all ≡ some osp)
  unfolding load_files contains
  load_files-has [] osps all name h (inl has) =
      (has.0, subst (λ m. lookup name m ≡ some has.0) (ok-injective _ _ h) has.1)
  load_files-has [] osps all name h (inr listed) = cc
  load_files-has (f ∷ fs) osps all name h has =
      let one = load_files-cases f fs osps (parse_osp_file F f) h in
      load_files-has fs _ all name one.2 (inserted f fs one.0 osps name has)

  -- Where loadDefaultOSPs succeeds, its map is exactly what the files of the directory hold: every
  -- entry is what one of the files parses to, under the file's name without ".yaml", and the name of
  -- every file has an entry.
  pub load_default_osps-exact :
      (files : List String) (all : Dict Osp)
      → F.read_dir default_dir ≡ ok files
      → load_default_osps F ≡ ok all
      → ((name : String) (osp : Osp) → lookup name all ≡ some osp → FromFile files name osp)
        × ((name : String)
            → contains (map osp_name files) name ≡ true
            → (osp : Osp) × (lookup name all ≡ some osp))
  unfolding load_default_osps lookup
  load_default_osps-exact files all listing h =
      let loaded = rw listing at h in
      (
        λ name osp found. elim (load_files-from files [] all name osp loaded found) [
          | inl from ↦ from
          | inr nothing ↦ absurd (ground arith)
        ],
        λ name listed. load_files-has files [] all name loaded (inr listed),
      )
