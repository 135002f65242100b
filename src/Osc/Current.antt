-- ===== src/Osc/Current.antt =====
-- When an OSC is up to date, and what a rotation leaves.
use mathlib.Core.Path.{subst}
use mathlib.Core.Option.{some-injective}
use operating_system_manager.Prelude.{
  String, true, false, Option, none, some, ◌≡◌, ◌≢◌, sym, ◌∙◌, ap, arith, if◌then◌else◌, Bool-cases,
  inl, inr, ◌⊎◌, eq_iff, eq_refl,
}
use operating_system_manager.Prelude.Dict.{Dict, insert, value, value-insert}
use operating_system_manager.Prelude.Result.{Result, ok, err, is_not_found}
use operating_system_manager.Prelude.Exec.{attempt, pure}
use operating_system_manager.Prelude.Exec.Laws.{bind-ok, wrap-ok}
use operating_system_manager.Crd.{Osp, Osc}
use operating_system_manager.Machine.{MachineDeployment}
use operating_system_manager.Osc.Names.{version_annotation, md_hash_annotation}
use operating_system_manager.Osc.Api.{Api, Sdk, Parts, Settings}
use operating_system_manager.Osc.Api.Laws.{Content, IsLawful, Answers, set_self, written}
use operating_system_manager.Osc.Frame.{OscAt, delete_generated_secrets-OscAt}
use operating_system_manager.Osc.Secrets.{calculate_annotations_hash, osc_rotation_annotations}
use operating_system_manager.Osc.Configs.{
  osc_key_of, is_current, annotated, rotate, handle_rotation, rotate_unless_current,
}

none≢some : {B : Type 0} {b : B} → ◌≢◌ {A = Option B} none (some b)
none≢some h = cc

-- The annotation for the revision is not one of the other two.
abbrev pub KeysDiffer : Sdk → Type 0
KeysDiffer K =
    (K.machine_deployment_revision ≢ version_annotation)
    × (K.machine_deployment_revision ≢ md_hash_annotation)

-- An OSC is up to date with its MachineDeployment and OSP: its annotations hold the revision of the
-- MachineDeployment, the version of the OSP and the hash of the MachineDeployment's annotations.
abbrev pub IsMarked : Sdk → MachineDeployment → Osp → String → Osc → Type 0
IsMarked K md osp mdhash osc =
    (value K.machine_deployment_revision osc.annotations
      ≡ value K.revision_annotation md.annotations)
    × (value version_annotation osc.annotations ≡ osp.spec.version)
    × (value md_hash_annotation osc.annotations ≡ mdhash)

abbrev pub UpToDate : Sdk → MachineDeployment → Osp → Osc → Type 0
UpToDate K md osp osc =
    (mdhash : String) × (calculate_annotations_hash K md.annotations ≡ ok mdhash)
    × IsMarked K md osp mdhash osc

-- The test of the code is exact.
pub is_current-IsMarked :
    (K : Sdk) (md : MachineDeployment) (osp : Osp) (mdhash : String) (osc : Osc)
    → is_current K md osp mdhash osc ≡ true
    → IsMarked K md osp mdhash osc
unfolding is_current
is_current-IsMarked K md osp mdhash osc h =
    let revision =
      eq_iff (value K.revision_annotation md.annotations)
        (value K.machine_deployment_revision osc.annotations) in
    let version = eq_iff osp.spec.version (value version_annotation osc.annotations) in
    let hash = eq_iff (value md_hash_annotation osc.annotations) mdhash in
    (ground (arith, revision, h), ground (arith, version, h), ground (arith, hash, h))

pub IsMarked-is_current :
    (K : Sdk) (md : MachineDeployment) (osp : Osp) (mdhash : String) (osc : Osc)
    → IsMarked K md osp mdhash osc
    → is_current K md osp mdhash osc ≡ true
unfolding is_current
IsMarked-is_current K md osp mdhash osc h = rw h.0 (rw h.1 (rw h.2 (simp (eq_refl))))

abbrev pub Fresh : Sdk → Settings → MachineDeployment → Osp → Content → Type 0
Fresh K r md osp c = (osc : Osc) → c.oscs (osc_key_of r md) ≡ some osc → UpToDate K md osp osc

module _ (A : Api) (L : IsLawful A) (K : Sdk) (P : Parts A.State) (r : Settings)
    (md : MachineDeployment) (osp : Osp) (differ : KeysDiffer K) where
  value_revision :
      (revision mdhash version : String) (d : Dict String)
      → value K.machine_deployment_revision (
          insert version_annotation version
            (insert md_hash_annotation mdhash (insert K.machine_deployment_revision revision d)))
        ≡ revision
  value_revision revision mdhash version d =
      simp (value-insert, eq_refl)
        (ground (
          arith,
          differ,
          eq_iff version_annotation K.machine_deployment_revision,
          eq_iff md_hash_annotation K.machine_deployment_revision,
        ))

  pub annotated-UpToDate :
      (mdhash : String) (osc : Osc)
      → calculate_annotations_hash K md.annotations ≡ ok mdhash
      → UpToDate K md osp (annotated A K P r md osp mdhash osc)
  unfolding annotated osc_rotation_annotations
  annotated-UpToDate mdhash osc hashed = (
    mdhash,
    hashed,
    (value_revision _ _ _ _, simp (value-insert, eq_refl), simp (value-insert, eq_refl)),
  )

  rotate-absent :
      (s : A.State)
      → (rotate A K r md osp s).0 ≡ ok tt
      → (L.content (rotate A K r md osp s).1).oscs (osc_key_of r md) ≡ none
  unfolding rotate
  rotate-absent s h =
      let k = osc_key_of r md in
      let one = bind-ok _ _ s h in
      let two = wrap-ok _ _ (A.delete_osc k) s one.first in
      subst (λ t. OscAt k none (L.content t)) (sym one.state)
        ((delete_generated_secrets-OscAt A L K r md k none).at _ (
          ap (λ t. (L.content t).oscs k) two.1
          ∙ ap (λ c. c.oscs k) (written (A.delete_osc k s).0 _ _ (L.delete_osc_writes k s) two.0)
          ∙ set_self k none (L.content s).oscs))

  decided :
      (osc : Osc) (s : A.State) (mdhash : String)
      → (L.content s).oscs (osc_key_of r md) ≡ some osc
      → calculate_annotations_hash K md.annotations ≡ ok mdhash
      → ((if is_current K md osp mdhash osc then pure tt else rotate A K r md osp) s).0 ≡ ok tt
      → (is_current K md osp mdhash osc ≡ true) ⊎ (is_current K md osp mdhash osc ≡ false)
      → Fresh K r md osp (
          L.content ((if is_current K md osp mdhash osc then pure tt else rotate A K r md osp) s).1)
  decided osc s mdhash found hashed h (inl current) = rw current λ osc' there.
      subst (UpToDate K md osp) (some-injective _ _ (sym found ∙ there))
        (mdhash, hashed, is_current-IsMarked K md osp mdhash osc current)
  decided osc s mdhash found hashed h (inr outdated) =
      rw outdated
        λ osc' there. absurd (none≢some (sym (rotate-absent s (rw outdated at h)) ∙ there))

  rotate_unless_current-Fresh :
      (q : Result Osc) (s : A.State)
      → Answers ((L.content s).oscs (osc_key_of r md)) q
      → (rotate_unless_current A K r md osp q s).0 ≡ ok tt
      → Fresh K r md osp (L.content (rotate_unless_current A K r md osp q s).1)
  unfolding rotate_unless_current
  rotate_unless_current-Fresh (ok osc) s found h =
      let one = bind-ok _ _ s h in
      subst (λ t. Fresh K r md osp (L.content t)) (sym one.state)
        (decided osc s one.value found one.first one.then_ok (Bool-cases _))
  rotate_unless_current-Fresh (err e) s found h = elim (Bool-cases (is_not_found e)) [
    | inl gone ↦ λ osc there. absurd (cc (found gone))
    | inr fault ↦ absurd (ground arith)
  ]

  -- Where the API servers are lawful and the annotation keys differ, an OSC that is stored after a
  -- rotation that succeeds is up to date.
  pub handle_rotation-Fresh :
      (s : A.State)
      → (handle_rotation A K r md osp s).0 ≡ ok tt
      → Fresh K r md osp (L.content (handle_rotation A K r md osp s).1)
  unfolding handle_rotation attempt
  handle_rotation-Fresh s h =
      let k = osc_key_of r md in
      rotate_unless_current-Fresh (A.get_osc k s).0 (A.get_osc k s).1
        (subst (λ d. Answers (d.oscs k) (A.get_osc k s).0) (sym (L.get_osc_content k s))
          (L.get_osc_answer k s))
        h
