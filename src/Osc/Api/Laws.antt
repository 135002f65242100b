-- ===== src/Osc/Api/Laws.antt =====
-- What the controller relies on of the API server. A read answers with what is stored; a write that
-- is confirmed has been made, and one that fails has changed nothing. Any request may fail.
use operating_system_manager.Prelude.{
  String, Bool, true, false, ◌&&◌, List, [], ◌∷◌, Option, none, some, arith, ◌≡◌, ◌≢◌, Bool-cases,
  inl, inr, refl, if◌then◌else◌,
}
use operating_system_manager.Prelude.Result.{Error, Result, ok, err, is_not_found}
use operating_system_manager.Crd.{Osp, Osc}
use operating_system_manager.Machine.{Key, key_eq, key_eq_iff, MachineDeployment, Secret}
use operating_system_manager.Osc.Api.{Api}

-- The stored objects.
pub record Content : Type 0 where
  pub mds : Key → Option MachineDeployment
  pub osps : Key → Option Osp
  pub oscs : Key → Option Osc
  pub secrets : Key → Option Secret

abbrev pub md_key : MachineDeployment → Key
md_key md = record { namespace = md.namespace; name = md.name }

abbrev pub osc_key : Osc → Key
osc_key osc = record { namespace = osc.namespace; name = osc.name }

abbrev pub secret_key : Secret → Key
secret_key s = record { namespace = s.namespace; name = s.name }

abbrev pub set_at {ℓ} : {A : Type ℓ} → Key → A → (Key → A) → Key → A
set_at k a f j = if key_eq k j then a else f j

-- An answer to a read agrees with the stored object.
abbrev pub Answers {ℓ} : {A : Type ℓ} → Option A → Result A → Type ℓ
Answers o (ok a) = o ≡ some a
Answers {A} o (err e) = is_not_found e ≡ true → ◌≡◌ {A = Option A} o none

abbrev pub is_nil : List String → Bool
is_nil [] = true
is_nil (x ∷ xs) = false

-- What is stored after an update: an object that is marked for deletion goes with its last finalizer.
abbrev pub stored_after : MachineDeployment → Option MachineDeployment
stored_after md = if md.deleting && is_nil md.finalizers then none else some md

-- After a write from `c` that is meant to lead to `d`.
abbrev pub Writes {ℓ} : {A : Type ℓ} → Result A → Content → Content → Content → Type 0
Writes (ok _) c d after = after ≡ d
Writes (err _) c d after = after ≡ c

-- A write where nothing was stored keeps what is stored anywhere.
pub set_fresh :
    {B : Type 0} (k j : Key) (f : Key → Option B) (v : Option B) {b : B}
    → f k ≡ none
    → f j ≡ some b
    → set_at k v f j ≡ some b
set_fresh k j f v fresh found = ground (arith, key_eq_iff k j)

-- A write of an object leaves one wherever one was.
pub set_there :
    {B : Type 0} (k j : Key) (f : Key → Option B) (b : B)
    → f j ≢ none
    → set_at k (some b) f j ≢ none
set_there k j f b there = elim (Bool-cases (key_eq k j)) [
  | inl same ↦ rw same (λ h. cc)
  | inr other ↦ rw other there
]

pub set_self {ℓ} : {B : Type ℓ} (k : Key) (v : B) (f : Key → B) → set_at k v f k ≡ v
set_self k v f = rw ((key_eq_iff k k).1 refl)

pub written :
    (q : Result (Unit {0})) (c d : Content) {after : Content}
    → Writes q c d after
    → q ≡ ok tt
    → after ≡ d
written (ok _) c d w h = w
written (err e) c d w h = cc

pub failed :
    (q : Result (Unit {0})) (c d : Content) {after : Content} {e : Error}
    → Writes q c d after
    → q ≡ err e
    → after ≡ c
failed (ok _) c d w h = cc
failed (err e) c d w h = w

pub record IsLawful (A : Api) : Type 0 where
  pub content : A.State → Content
  pub get_md_content : (k : Key) (s : A.State) → content (A.get_md k s).1 ≡ content s
  pub get_md_answer : (k : Key) (s : A.State) → Answers ((content s).mds k) (A.get_md k s).0
  pub get_osp_content : (k : Key) (s : A.State) → content (A.get_osp k s).1 ≡ content s
  pub get_osp_answer : (k : Key) (s : A.State) → Answers ((content s).osps k) (A.get_osp k s).0
  pub get_osc_content : (k : Key) (s : A.State) → content (A.get_osc k s).1 ≡ content s
  pub get_osc_answer : (k : Key) (s : A.State) → Answers ((content s).oscs k) (A.get_osc k s).0
  pub get_secret_content : (k : Key) (s : A.State) → content (A.get_secret k s).1 ≡ content s
  pub get_secret_answer :
      (k : Key) (s : A.State) → Answers ((content s).secrets k) (A.get_secret k s).0
  pub get_local_secret_content :
      (k : Key) (s : A.State) → content (A.get_local_secret k s).1 ≡ content s
  pub update_md_writes :
      (md : MachineDeployment) (s : A.State)
      → Writes
          (A.update_md md s).0
          (content s)
          (record (content s) { mds = set_at (md_key md) (stored_after md) (content s).mds })
          (content (A.update_md md s).1)
  pub create_osc_writes :
      (osc : Osc) (s : A.State)
      → Writes
          (A.create_osc osc s).0
          (content s)
          (record (content s) { oscs = set_at (osc_key osc) (some osc) (content s).oscs })
          (content (A.create_osc osc s).1)
  -- A create is confirmed only where nothing was stored.
  pub create_osc_fresh :
      (osc : Osc) (s : A.State)
      → (A.create_osc osc s).0 ≡ ok tt
      → (content s).oscs (osc_key osc) ≡ none
  pub delete_osc_writes :
      (k : Key) (s : A.State)
      → Writes
          (A.delete_osc k s).0
          (content s)
          (record (content s) { oscs = set_at k none (content s).oscs })
          (content (A.delete_osc k s).1)
  -- A delete finds nothing only where nothing is stored.
  pub delete_osc_answer :
      (k : Key) (s : A.State) (e : Error)
      → (A.delete_osc k s).0 ≡ err e
      → is_not_found e ≡ true
      → (content s).oscs k ≡ none
  pub create_secret_writes :
      (x : Secret) (s : A.State)
      → Writes
          (A.create_secret x s).0
          (content s)
          (record (content s) { secrets = set_at (secret_key x) (some x) (content s).secrets })
          (content (A.create_secret x s).1)
  -- A create is confirmed only where nothing was stored.
  pub create_secret_fresh :
      (x : Secret) (s : A.State)
      → (A.create_secret x s).0 ≡ ok tt
      → (content s).secrets (secret_key x) ≡ none
  pub update_secret_writes :
      (x : Secret) (s : A.State)
      → Writes
          (A.update_secret x s).0
          (content s)
          (record (content s) { secrets = set_at (secret_key x) (some x) (content s).secrets })
          (content (A.update_secret x s).1)
  pub delete_secret_writes :
      (k : Key) (s : A.State)
      → Writes
          (A.delete_secret k s).0
          (content s)
          (record (content s) { secrets = set_at k none (content s).secrets })
          (content (A.delete_secret k s).1)
  pub delete_secret_answer :
      (k : Key) (s : A.State) (e : Error)
      → (A.delete_secret k s).0 ≡ err e
      → is_not_found e ≡ true
      → (content s).secrets k ≡ none
  pub event_content :
      (md : MachineDeployment) (reason : String) (e : Error) (s : A.State)
      → content (A.event md reason e s) ≡ content s
