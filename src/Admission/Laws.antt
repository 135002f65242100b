-- ===== src/Admission/Laws.antt =====
-- What the webhooks let through.
use mathlib.Core.Path.{subst}
use text.Mathlib.TextPositions.{len-append}
use operating_system_manager.Prelude.{
  String, ◌<>◌, Bool, true, false, List, [], ◌∷◌, ◌==◌, ◌≡◌, ◌≢◌, ◌↔◌, ◌⊎◌, refl, ◌∙◌, ap,
  Bool-cases, inl, inr, eq_iff, arith, length, ltb, len, if◌then◌else◌,
}
use operating_system_manager.Prelude.Dict.{value, value-insert}
use operating_system_manager.Prelude.Result.{Error, Result, ok, err, ok-injective, Result-cases}
use operating_system_manager.Crd.{Osp, Osc, SystemdUnit, flatcar}
use operating_system_manager.Machine.{MachineDeployment, ProviderConfig}
use operating_system_manager.Osc.Names.{osp_annotation, filter_machine_deployment}
use operating_system_manager.Admission.Review.{Request, update, is_allowed}
use operating_system_manager.Admission.OscValidation.{
  OscCodec, OscCompares, validate_osc_update, osc_verdict, osc_updated, handle_osc, handle_osc_at,
}
use operating_system_manager.Admission.OspValidation.{
  OspCodec, OspCompares, validate_osp, validate_osp_update, osp_verdict, osp_updated, handle_osp,
  handle_osp_at,
}
use operating_system_manager.Admission.Mutation.{
  Codec, annotate, with_default_osp, mutate_machine_deployment,
}

-- Where both OSCs of an update can be decoded and DeepEqual tells their specs apart, the update is
-- allowed exactly if it leaves the spec as it was.
pub handle_osc-update :
    (C : OscCodec) (req : Request) (osc old : Osc)
    → OscCompares C old.spec osc.spec
    → req.operation ≡ update
    → C.decode req.object ≡ ok osc
    → C.decode req.old_object ≡ ok old
    → (is_allowed (handle_osc C req) ≡ true) ↔ (old.spec ≡ osc.spec)
unfolding handle_osc handle_osc_at osc_updated osc_verdict validate_osc_update is_allowed
handle_osc-update C req osc old equality op new_ok old_ok =
    rw op (rw new_ok (rw old_ok (ground (arith, equality))))

-- Units are for Flatcar only.
abbrev pub UnitsAllowed : Osp → Type 0
UnitsAllowed osp =
    (osp.spec.os_name ≡ flatcar)
    ⊎ ((osp.spec.bootstrap_config.units ≡ []) × (osp.spec.provisioning_config.units ≡ []))

no_units : (us : List SystemdUnit) → (ltb 0 (length us) ≡ false) ↔ (us ≡ [])
no_units [] = (λ _. refl, λ _. refl)
no_units (u ∷ us) = (λ h. ground arith, λ h. cc)

validate_osp_iff : (osp : Osp) → (validate_osp osp ≡ ok tt) ↔ UnitsAllowed osp
unfolding validate_osp
validate_osp_iff osp = ground (
  arith,
  no_units osp.spec.bootstrap_config.units,
  no_units osp.spec.provisioning_config.units,
  eq_iff osp.spec.os_name flatcar,
)

-- What an update of an OSP must be like.
abbrev pub OspUpdateAllowed : Osp → Osp → Type 0
OspUpdateAllowed osp old =
    UnitsAllowed osp × ((old.spec ≡ osp.spec) ⊎ (osp.spec.version ≢ old.spec.version))

module _ (C : OspCodec) where
  validate_osp_update_iff :
      (osp old : Osp)
      → OspCompares C old.spec osp.spec
      → (validate_osp_update C osp old ≡ ok tt) ↔ OspUpdateAllowed osp old
  unfolding validate_osp_update
  validate_osp_update_iff osp old equality = elim (Result-cases (validate_osp osp)) [
    | inl fine ↦ rw fine.1 (
        ground (
          arith,
          equality,
          eq_iff osp.spec.version old.spec.version,
          (validate_osp_iff osp).0 fine.1,
        ))
    | inr bad ↦
        (λ h. absurd (cc (rw bad.1 at h)), λ h. absurd (cc (bad.1, (validate_osp_iff osp).1 h.0)))
  ]

  verdict_iff :
      (uid : String) (r : Result (Unit {0}))
      → (is_allowed (osp_verdict C uid r) ≡ true) ↔ (r ≡ ok tt)
  unfolding osp_verdict is_allowed
  verdict_iff uid (ok tt) = (λ _. refl, λ _. refl)
  verdict_iff uid (err e) = (λ h. cc, λ h. cc)

  -- Where both OSPs of an update can be decoded and DeepEqual tells their specs apart, the update is
  -- allowed exactly if the new OSP has units only where it is for Flatcar, and its spec is the old one
  -- or has another version.
  pub handle_osp-update :
      (req : Request) (osp old : Osp)
      → OspCompares C old.spec osp.spec
      → req.operation ≡ update
      → C.decode req.object ≡ ok osp
      → C.decode req.old_object ≡ ok old
      → (is_allowed (handle_osp C req) ≡ true) ↔ OspUpdateAllowed osp old
  unfolding handle_osp handle_osp_at osp_updated
  handle_osp-update req osp old equality op new_ok old_ok = rw op (
      rw new_ok (
        rw old_ok (
          let a = verdict_iff req.uid (validate_osp_update C osp old) in
          let b = validate_osp_update_iff osp old equality in
          (λ h. b.0 (a.0 h), λ h. a.1 (b.1 h)))))

-- The mutation adds an OSP where none is named.
module _ (C : Codec) where
  -- What the mutation may change.
  abbrev pub Annotated : MachineDeployment → MachineDeployment → Type 0
  Annotated md md' =
      (filter_machine_deployment md'.annotations ≡ true)
      × ((key : String)
          → key ≢ osp_annotation
          → value key md'.annotations ≡ value key md.annotations)
      × (value osp_annotation md.annotations ≢ "" → md' ≡ md)
      × (md'.provider_spec ≡ md.provider_spec)

  annotate-Annotated :
      (osp : String) (md : MachineDeployment)
      → osp == "" ≡ false
      → value osp_annotation md.annotations == "" ≡ true
      → Annotated md (annotate osp md)
  unfolding annotate filter_machine_deployment
  annotate-Annotated osp md named none_named = (
    simp (value-insert, named),
    λ key other.
        value-insert osp_annotation key osp md.annotations
        ∙ ground (arith, eq_iff osp_annotation key),
    λ h. absurd (h ((eq_iff _ _).0 none_named)),
    refl,
  )

  prefixed : (os : String) → "osp-" <> os == "" ≡ false
  prefixed os = elim (Bool-cases ("osp-" <> os == "")) [
    | inl empty ↦
        absurd (ground (arith, ap len ((eq_iff ("osp-" <> os) "").0 empty), len-append "osp-" os))
    | inr named ↦ named
  ]

  chosen :
      (a b : Bool) (x y r : MachineDeployment) (e : Error)
      → (if a then ok x else if b then ok y else err e) ≡ ok r
      → (x ≡ r) ⊎ (y ≡ r)
  chosen true b x y r e h = inl (ok-injective _ _ h)
  chosen false true x y r e h = inr (ok-injective _ _ h)
  chosen false false x y r e h = cc

  with_default_osp-Annotated :
      (md : MachineDeployment) (config : ProviderConfig) (md' : MachineDeployment)
      → value osp_annotation md.annotations == "" ≡ true
      → with_default_osp C md config ≡ ok md'
      → Annotated md md'
  unfolding with_default_osp
  with_default_osp-Annotated md config md' h made = elim (chosen _ _ _ _ md' _ made) [
    | inl special ↦
        subst (Annotated md) special (annotate-Annotated "osp-flatcar-cloud-init" md refl h)
    | inr named ↦
        subst (Annotated md) named
          (annotate-Annotated ("osp-" <> config.operating_system) md (prefixed _) h)
  ]

  -- A MachineDeployment that the mutation accepts names an OSP afterwards, so that the OSC controller
  -- watches it; its other annotations and its provider configuration are the same, and it is
  -- unchanged if it named an OSP before.
  pub mutate_machine_deployment-Annotated :
      (md md' : MachineDeployment) → mutate_machine_deployment C md ≡ ok md' → Annotated md md'
  unfolding mutate_machine_deployment filter_machine_deployment
  mutate_machine_deployment-Annotated md md' h =
      elim (Result-cases (C.get_config md.provider_spec)) [
        | inr fault ↦ absurd (cc (rw fault.1 at h))
        | inl got ↦
            let h' = rw got.1 at h in
            elim (Bool-cases (value osp_annotation md.annotations == "")) [
              | inl unnamed ↦ with_default_osp-Annotated md got.0 md' unnamed (rw unnamed at h')
              | inr named ↦
                  subst (Annotated md) (ok-injective _ _ (rw named at h'))
                    (rw named refl, λ key other. refl, λ _. refl, refl)
            ]
      ]

  -- Mutated once more, a MachineDeployment stays as it is.
  pub mutate_machine_deployment-idempotent :
      (md md' : MachineDeployment)
      → mutate_machine_deployment C md ≡ ok md'
      → mutate_machine_deployment C md' ≡ ok md'
  unfolding mutate_machine_deployment filter_machine_deployment
  mutate_machine_deployment-idempotent md md' h =
      let a = mutate_machine_deployment-Annotated md md' h in
      elim (Result-cases (C.get_config md.provider_spec)) [
        | inr fault ↦ absurd (cc (rw fault.1 at h))
        | inl got ↦ rw a.3 (
            rw got.1 (elim (Bool-cases (value osp_annotation md'.annotations == "")) [
              | inl unnamed ↦ absurd (ground (arith, a.0))
              | inr named ↦ rw named refl
            ]))
      ]
