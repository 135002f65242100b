-- ===== src/Osc/Immutable.antt =====
-- Runs that start with an OSC that is up to date.
use mathlib.Core.Path.{subst}
use mathlib.Core.Option.{some-injective}
use operating_system_manager.Prelude.{String, true, none, some, ◌≢◌, Bool-cases, inl, inr, ◌≡◌, sym}
use operating_system_manager.Prelude.Result.{Result, ok, err, is_not_found}
use operating_system_manager.Prelude.Exec.{attempt, ◌>>=◌}
use operating_system_manager.Crd.{Osp, Osc}
use operating_system_manager.Machine.{Key, MachineDeployment, Secret}
use operating_system_manager.Finalizers.{Sets}
use operating_system_manager.Osc.Api.{Api, Sdk, Parts, Settings}
use operating_system_manager.Osc.Api.Laws.{
  Content, IsLawful, Answers, osc_key, secret_key, set_fresh, set_there,
}
use operating_system_manager.Osc.Current.{IsMarked, IsMarked-is_current}
use operating_system_manager.Osc.Api.Keeps.{Keeps, Writes_keeps_if}
use operating_system_manager.Osc.Invariants.{
  PartsKeep, NamesOsc, reconcile-outcome, reconcile_with-Keeps,
}
use operating_system_manager.Osc.Secrets.{calculate_annotations_hash}
use operating_system_manager.Osc.Configs.{
  osc_key_of, is_current, handle_rotation, rotate_unless_current,
}
use operating_system_manager.Osc.Reconciler.{osp_key, reconcile}

-- The OSC at one key, and some Secret at another.
abbrev pub Holds : Key → Osc → Key → Content → Type 0
Holds k osc j c = (c.oscs k ≡ some osc) × (c.secrets j ≢ none)

module _ (A : Api) (L : IsLawful A) (k : Key) (osc : Osc) (j : Key) where
  create_osc-Holds : (o : Osc) → Keeps L (Holds k osc j) (A.create_osc o)
  create_osc-Holds o = record {
    at = λ s h.
        Writes_keeps_if (Holds k osc j) (A.create_osc o s).0 (L.create_osc_writes o s) h (λ done.
          (set_fresh (osc_key o) k (L.content s).oscs _ (L.create_osc_fresh o s done) h.0, h.1));
  }

  create_secret-Holds : (y : Secret) → Keeps L (Holds k osc j) (A.create_secret y)
  create_secret-Holds y = record {
    at = λ s h.
        Writes_keeps_if (Holds k osc j) (A.create_secret y s).0 (L.create_secret_writes y s) h
          (λ done. (h.0, set_there (secret_key y) j (L.content s).secrets y h.1));
  }

module _ (A : Api) (L : IsLawful A) (K : Sdk) (S : Sets) (P : Parts A.State) (r : Settings)
    (md : MachineDeployment) (osp : Osp) (mdhash : String) (osc : Osc) (j : Key)
    (hashed : calculate_annotations_hash K md.annotations ≡ ok mdhash)
    (marked : IsMarked K md osp mdhash osc) where
  current : is_current K md osp mdhash osc ≡ true
  current = IsMarked-is_current K md osp mdhash osc marked

  abbrev Kept : Content → Type 0
  Kept = Holds (osc_key_of r md) osc j

  rotate_unless_current-Kept :
      (q : Result Osc) (s : A.State)
      → Answers (some osc) q
      → Kept (L.content s)
      → Kept (L.content (rotate_unless_current A K r md osp q s).1)
  unfolding rotate_unless_current ◌>>=◌
  rotate_unless_current-Kept (ok o) s found h =
      subst (λ o'. Kept (L.content (rotate_unless_current A K r md osp (ok o') s).1))
        (some-injective _ _ found) (rw hashed (rw current h))
  rotate_unless_current-Kept (err e) s found h = elim (Bool-cases (is_not_found e)) [
    | inl gone ↦ absurd (cc (found gone))
    | inr fault ↦ rw fault h
  ]

  handle_rotation-Kept :
      (s : A.State) → Kept (L.content s) → Kept (L.content (handle_rotation A K r md osp s).1)
  unfolding handle_rotation attempt
  handle_rotation-Kept s h =
      rotate_unless_current-Kept (A.get_osc (osc_key_of r md) s).0 (A.get_osc (osc_key_of r md) s).1
        (subst (λ o. Answers o (A.get_osc (osc_key_of r md) s).0) h.0 (L.get_osc_answer _ s))
        (subst Kept (sym (L.get_osc_content _ s)) h)

  create_secret-Kept : (y : Secret) → Keeps L Kept (A.create_secret y)
  create_secret-Kept = create_secret-Holds A L (osc_key_of r md) osc j

  create_osc-Kept : (o : Osc) → osc_key o ≡ osc_key_of r md → Keeps L Kept (A.create_osc o)
  create_osc-Kept o _ = create_osc-Holds A L (osc_key_of r md) osc j o

  module _ (parts : PartsKeep L P Kept) (names : NamesOsc P) where
    -- Where the API servers are lawful, the parts neither write the OSC nor remove the Secret, a
    -- generated OSC has the name that was asked for and the OSP that the MachineDeployment names is
    -- stored: if an OSC is stored that is up to date, it is the same object after the run, and a
    -- Secret that was stored at a key still is one, whatever the outcome.
    pub reconcile-immutable :
        (s : A.State)
        → (L.content s).osps (osp_key A K S P r md) ≡ some osp
        → Kept (L.content s)
        → Kept (L.content (reconcile A K S P r md s).1)
    reconcile-immutable s named h = reconcile-outcome A L K S P r md Kept s osp named h (
        reconcile_with-Keeps A L K Kept r md S P osp create_secret-Kept parts names create_osc-Kept
          (record { at = handle_rotation-Kept }))
