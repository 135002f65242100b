-- ===== src/Osc/Frame.antt =====
-- What a run leaves alone: OSCs of other keys, and Secrets where it starts without the OSC.
use mathlib.Core.Path.{subst}
use operating_system_manager.Prelude.{
  String, false, ◌≢◌, Option, none, some, List, ◌≡◌, sym, ◌∙◌, ap, arith,
}
use operating_system_manager.Prelude.Result.{Result, ok, err}
use operating_system_manager.Prelude.Exec.{attempt, wrap}
use operating_system_manager.Prelude.Exec.Laws.{bind-outcome, wrap-state}
use operating_system_manager.Crd.{Osp, Osc}
use operating_system_manager.Machine.{Key, key_eq, MachineDeployment, Secret}
use operating_system_manager.Finalizers.{Sets}
use operating_system_manager.Osc.Api.{Api, Sdk, Parts, Settings}
use operating_system_manager.Osc.Api.Laws.{
  Content, IsLawful, Answers, osc_key, secret_key, set_fresh, set_there,
}
use operating_system_manager.Osc.Api.Keeps.{Keeps, Writes_keeps, Writes_keeps_if, Keeps-wrap}
use operating_system_manager.Osc.Invariants.{
  PartsKeep, NamesOsc, reconcile-Keeps, reconcile_with-Keeps, handle_rotation-Keeps, finish-Keeps,
  check_osp-Keeps, wrap-fetch_osp, delete_generated_secrets-Keeps,
}
use operating_system_manager.Osc.Secrets.{delete_generated_secrets}
use operating_system_manager.Osc.Configs.{osc_key_of, handle_rotation, rotate_unless_current}
use operating_system_manager.Osc.Reconciler.{
  fetch_osp, check_osp, finish, reconcile, reconcile_with,
}

abbrev pub OscAt : Key → Option Osc → Content → Type 0
OscAt k o c = c.oscs k ≡ o

abbrev pub SecretAt : Key → Option Secret → Content → Type 0
SecretAt k x c = c.secrets k ≡ x

-- Some Secret is stored.
abbrev pub SecretThere : Key → Content → Type 0
SecretThere k c = c.secrets k ≢ none

-- The OSCs stay as they are under writes of Secrets, and under writes of other OSCs.
module _ (A : Api) (L : IsLawful A) (k : Key) (o : Option Osc) where
  pub delete_secret-OscAt : (j : Key) → Keeps L (OscAt k o) (A.delete_secret j)
  delete_secret-OscAt j = record {
    at = λ s h. Writes_keeps (OscAt k o) (A.delete_secret j s).0 (L.delete_secret_writes j s) h h;
  }

  pub create_secret-OscAt : (x : Secret) → Keeps L (OscAt k o) (A.create_secret x)
  create_secret-OscAt x = record {
    at = λ s h. Writes_keeps (OscAt k o) (A.create_secret x s).0 (L.create_secret_writes x s) h h;
  }

  pub create_osc-OscAt :
      (osc : Osc) → key_eq (osc_key osc) k ≡ false → Keeps L (OscAt k o) (A.create_osc osc)
  create_osc-OscAt osc ne = record {
    at = λ s h.
        Writes_keeps (OscAt k o) (A.create_osc osc s).0 (L.create_osc_writes osc s) h (rw ne h);
  }

  pub delete_osc-OscAt : (j : Key) → key_eq j k ≡ false → Keeps L (OscAt k o) (A.delete_osc j)
  delete_osc-OscAt j ne = record {
    at = λ s h. Writes_keeps (OscAt k o) (A.delete_osc j s).0 (L.delete_osc_writes j s) h (rw ne h);
  }

-- A Secret that is stored is not overwritten.
module _ (A : Api) (L : IsLawful A) (j : Key) (x : Secret) where
  pub create_secret-SecretAt : (y : Secret) → Keeps L (SecretAt j (some x)) (A.create_secret y)
  create_secret-SecretAt y = record {
    at = λ s h.
        Writes_keeps_if (SecretAt j (some x)) (A.create_secret y s).0 (L.create_secret_writes y s) h
          (λ done.
            set_fresh (secret_key y) j (L.content s).secrets _ (L.create_secret_fresh y s done) h);
  }

-- A write of a Secret removes none.
module _ (A : Api) (L : IsLawful A) (j : Key) where
  pub create_secret-SecretThere : (y : Secret) → Keeps L (SecretThere j) (A.create_secret y)
  create_secret-SecretThere y = record {
    at = λ s h.
        Writes_keeps (SecretThere j) (A.create_secret y s).0 (L.create_secret_writes y s) h
          (set_there (secret_key y) j (L.content s).secrets y h);
  }

pub update_secret-SecretThere :
    (A : Api) (L : IsLawful A) (j : Key) (y : Secret) → Keeps L (SecretThere j) (A.update_secret y)
update_secret-SecretThere A L j y = record {
  at = λ s h.
      Writes_keeps (SecretThere j) (A.update_secret y s).0 (L.update_secret_writes y s) h
        (set_there (secret_key y) j (L.content s).secrets y h);
}

pub delete_generated_secrets-OscAt :
    (A : Api) (L : IsLawful A) (K : Sdk) (r : Settings) (md : MachineDeployment) (k : Key)
    (o : Option Osc)
    → Keeps L (OscAt k o) (delete_generated_secrets A K md)
delete_generated_secrets-OscAt A L K r md k o =
    delete_generated_secrets-Keeps A L K (OscAt k o) r md (λ kind. delete_secret-OscAt A L k o _)
      (delete_secret-OscAt A L k o _)

module _ (A : Api) (L : IsLawful A) (K : Sdk) (S : Sets) (P : Parts A.State) (r : Settings)
    (md : MachineDeployment) (k : Key) (o : Option Osc) (parts : PartsKeep L P (OscAt k o))
    (names : NamesOsc P) (other : key_eq (osc_key_of r md) k ≡ false) where
  reconcile_with-OscAt : (osp : Osp) → Keeps L (OscAt k o) (reconcile_with A K S P r md osp)
  reconcile_with-OscAt osp =
      reconcile_with-Keeps A L K (OscAt k o) r md S P osp (create_secret-OscAt A L k o) parts names
        (λ osc e. create_osc-OscAt A L k o osc (rw e other))
        (handle_rotation-Keeps A L K (OscAt k o) r md (λ kind. delete_secret-OscAt A L k o _)
          (delete_secret-OscAt A L k o _) osp (delete_osc-OscAt A L k o _ other))

  -- Where the API servers are lawful, the parts write no OSC and a generated OSC has the name that
  -- was asked for, the OSC of any other key is the same after a run, or still absent, whatever the
  -- outcome.
  pub oscs-reconcile :
      (s : A.State) → (L.content s).oscs k ≡ o → (L.content (reconcile A K S P r md s).1).oscs k ≡ o
  oscs-reconcile = (reconcile-Keeps A L K S P r md (OscAt k o) reconcile_with-OscAt).at

module _ (A : Api) (L : IsLawful A) (K : Sdk) (r : Settings) (md : MachineDeployment) where
  rotate_unless_current-absent :
      (osp : Osp) (q : Result Osc) (s : A.State)
      → Answers none q
      → (rotate_unless_current A K r md osp q s).1 ≡ s
  unfolding rotate_unless_current
  rotate_unless_current-absent osp (ok o) s h = cc
  rotate_unless_current-absent osp (err e) s h = ground arith

  -- Without an OSC there is nothing to rotate.
  pub handle_rotation-absent :
      (osp : Osp) (s : A.State)
      → (L.content s).oscs (osc_key_of r md) ≡ none
      → L.content (handle_rotation A K r md osp s).1 ≡ L.content s
  unfolding handle_rotation attempt
  handle_rotation-absent osp s h =
      ap L.content (
        rotate_unless_current-absent osp _ _
          (subst (λ o. Answers o (A.get_osc (osc_key_of r md) s).0) h (L.get_osc_answer _ s)))
      ∙ L.get_osc_content _ s

-- A run that starts without the OSC.
module _ (A : Api) (L : IsLawful A) (K : Sdk) (S : Sets) (P : Parts A.State) (r : Settings)
    (md : MachineDeployment) (j : Key) (parts : PartsKeep L P (SecretThere j))
    (names : NamesOsc P) where
  create_osc-SecretThere : (y : Osc) → Keeps L (SecretThere j) (A.create_osc y)
  create_osc-SecretThere y = record {
    at = λ s h. Writes_keeps (SecretThere j) (A.create_osc y s).0 (L.create_osc_writes y s) h h;
  }

  abbrev Alone : Content → Type 0
  Alone c = (c.oscs (osc_key_of r md) ≡ none) × SecretThere j c

  finish-SecretThere : (osp : Osp) → Keeps L (SecretThere j) (finish A K S P r md osp)
  finish-SecretThere osp =
      finish-Keeps A L K (SecretThere j) r md S P osp (create_secret-SecretThere A L j) parts names
        (λ y _. create_osc-SecretThere y)

  checked :
      (f : String) (a : List String) (osp : Osp) (s : A.State)
      → Alone (L.content s)
      → Alone (L.content (wrap f a (check_osp A K S P r md osp) s).1)
  checked f a osp s h = (Keeps-wrap f a _ (check_osp-Keeps A L K S P r md Alone osp)).at s h

  rotated :
      (f : String) (a : List String) (osp : Osp) (s : A.State)
      → Alone (L.content s)
      → SecretThere j (L.content (wrap f a (handle_rotation A K r md osp) s).1)
  rotated f a osp s h =
      subst (SecretThere j)
        (sym (ap L.content (wrap-state f a _ s) ∙ handle_rotation-absent A L K r md osp s h.0)) h.1

  reconcile_with-Alone :
      (osp : Osp) (s : A.State)
      → Alone (L.content s)
      → SecretThere j (L.content (reconcile_with A K S P r md osp s).1)
  unfolding reconcile_with
  reconcile_with-Alone osp s h =
      bind-outcome (λ t. SecretThere j (L.content t)) (wrap _ _ (check_osp A K S P r md osp)) _ s
        (λ _ _.
          bind-outcome (λ t. SecretThere j (L.content t)) (wrap _ _ (handle_rotation A K r md osp))
            _ _ (λ _ _. (finish-SecretThere osp).at _ (rotated _ _ osp _ (checked _ _ osp s h)))
            (λ e _. rotated _ _ osp _ (checked _ _ osp s h)))
        (λ e _. (checked _ _ osp s h).1)

  -- Where the API servers are lawful, the parts remove no Secret at the key and a generated OSC has
  -- the name that was asked for: if the OSC is absent and a Secret is stored at the key, one still is
  -- after a run, whatever the outcome.
  pub secrets-reconcile :
      (s : A.State)
      → (L.content s).oscs (osc_key_of r md) ≡ none
      → SecretThere j (L.content s)
      → SecretThere j (L.content (reconcile A K S P r md s).1)
  unfolding reconcile
  secrets-reconcile s absent found =
      bind-outcome (λ t. SecretThere j (L.content t)) (wrap _ _ (fetch_osp A K S P r md)) _ s
        (λ osp _.
          reconcile_with-Alone osp _ (wrap-fetch_osp A L K S P r md _ _ Alone s (absent, found)))
        (λ e _. (wrap-fetch_osp A L K S P r md _ _ Alone s (absent, found)).1)
