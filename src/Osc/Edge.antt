-- ===== src/Osc/Edge.antt =====
-- The bootstrap script of the edge provider, whose Secret is created and never deleted.
use mathlib.Core.Path.{subst}
use operating_system_manager.Prelude.{
  String, none, List, ◌≡◌, ◌≢◌, refl, sym, ◌∙◌, ap, ◌==◌, Bool-cases, inl, inr,
}
use operating_system_manager.Prelude.Result.{Error, Result, ok, err, is_not_found}
use operating_system_manager.Prelude.Result
use operating_system_manager.Prelude.Exec.{attempt, wrap}
use operating_system_manager.Prelude.Exec.Laws.{bind-ok, wrap-ok, wrap-state}
use operating_system_manager.Crd.{Osp, Osc}
use operating_system_manager.Machine.{Key, MachineDeployment, Secret, Kubeconfig}
use operating_system_manager.Finalizers.{Sets}
use operating_system_manager.Osc.Names.{cloud_init_namespace, script_secret_name}
use operating_system_manager.Osc.Api.{Api, Sdk, Parts, Settings, OscRequest}
use operating_system_manager.Osc.Api.Laws.{Content, IsLawful, Answers, secret_key}
use operating_system_manager.Osc.Api.Keeps.{Keeps-wrap, Keeps-get_osc}
use operating_system_manager.Osc.Invariants.{
  PartsKeep, wrap-fetch_osp, check_osp-Keeps, with_credentials-Keeps,
}
use operating_system_manager.Osc.Frame.{handle_rotation-absent}
use operating_system_manager.Osc.Configs.{
  osc_key_of, store_script, generate_edge_script, edge_script_if, create_osc, create_unless_found,
  reconcile_configs, handle_rotation,
}
use operating_system_manager.Osc.Reconciler.{finish, reconcile_with, reconcile}

abbrev pub script_key : MachineDeployment → Key
script_key md = record { namespace = cloud_init_namespace; name = script_secret_name md }

-- No OSC is stored, and a Secret for the script is.
abbrev pub LeftBehind : Settings → MachineDeployment → Content → Type 0
LeftBehind r md c = (c.oscs (osc_key_of r md) ≡ none) × (c.secrets (script_key md) ≢ none)

-- An OSC that is generated for the MachineDeployment is for the edge provider.
abbrev pub ForEdge : {S : Type 0} → Parts S → MachineDeployment → Type 0
ForEdge P md =
    (q : OscRequest) (settings : Settings) (osc : Osc)
    → q.md ≡ md
    → P.generate_osc q settings ≡ ok osc
    → osc.spec.cloud_provider.name ≡ "edge"

module _ (A : Api) (L : IsLawful A) (md : MachineDeployment) where
  create_script-stuck :
      (y : Secret) (s : A.State)
      → secret_key y ≡ script_key md
      → (L.content s).secrets (script_key md) ≢ none
      → (A.create_secret y s).0 ≢ ok tt
  create_script-stuck y s key there h =
      there (subst (λ k. (L.content s).secrets k ≡ none) key (L.create_secret_fresh y s h))

  store_script-stuck :
      (script : String) (q : Result Secret) (s : A.State)
      → (L.content s).secrets (script_key md) ≢ none
      → (store_script A md script q s).0 ≢ ok tt
  unfolding store_script
  store_script-stuck script (ok y) s there h = create_script-stuck _ s refl there h
  store_script-stuck script (err e) s there h = elim (Bool-cases (is_not_found e)) [
    | inl gone ↦ create_script-stuck _ s refl there (rw gone at h)
    | inr fault ↦ absurd (cc (rw fault at h))
  ]

  generate_edge_script-stuck :
      (token : String) (config : Kubeconfig) (s : A.State)
      → (L.content s).secrets (script_key md) ≢ none
      → (generate_edge_script A md token config s).0 ≢ ok tt
  unfolding generate_edge_script attempt
  generate_edge_script-stuck token config s there h =
      let one = bind-ok _ _ s h in
      store_script-stuck _ _ _
        (subst (λ c. c.secrets (script_key md) ≢ none)
          (sym (L.get_secret_content (script_key md) s)) there)
        one.then_ok

module _ (A : Api) (L : IsLawful A) (K : Sdk) (S : Sets) (P : Parts A.State) (r : Settings)
    (md : MachineDeployment) (parts : PartsKeep L P (LeftBehind r md)) (edge : ForEdge P md) where
  abbrev Left : Content → Type 0
  Left = LeftBehind r md

  edge_script_if-stuck :
      (osp : Osp) (provider token : String) (config : Kubeconfig) (s : A.State)
      → provider ≡ "edge"
      → Left (L.content s)
      → (edge_script_if A K P r md osp (provider == "edge") token config s).0 ≢ ok tt
  unfolding edge_script_if
  edge_script_if-stuck osp provider token config s e left h =
      let h' =
        subst (λ p. (edge_script_if A K P r md osp (p == "edge") token config s).0 ≡ ok tt) e h in
      generate_edge_script-stuck A L md token config s left.1
        (wrap-ok _ _ (generate_edge_script A md token config) s h').0

  create_osc-stuck :
      (osp : Osp) (config : Kubeconfig) (name : String) (s : A.State)
      → Left (L.content s)
      → (create_osc A K P r md osp config name s).0 ≢ ok tt
  unfolding create_osc
  create_osc-stuck osp config name s left h =
      let one = bind-ok _ _ s h in
      let two = bind-ok _ _ _ one.then_ok in
      let three = bind-ok _ _ _ two.then_ok in
      let four = bind-ok _ _ _ three.then_ok in
      let five = bind-ok _ _ _ four.then_ok in
      edge_script_if-stuck osp _ _ _ _
        (edge _ _ four.value refl (Result.wrap-eq-ok _ _ (P.generate_osc _ _) four.first))
        ((Keeps-wrap _ _ _ parts.token).at _
          ((with_credentials-Keeps A L K Left P r md osp parts).at _ left))
        five.first

  create_unless_found-stuck :
      (osp : Osp) (config : Kubeconfig) (name : String) (q : Result Osc) (s : A.State)
      → Answers none q
      → Left (L.content s)
      → (create_unless_found A K P r md osp (create_osc A K P r md osp config name) q s).0 ≢ ok tt
  create_unless_found-stuck osp config name (ok o) s found left h = cc
  create_unless_found-stuck osp config name (err e) s found left h =
      create_osc-stuck osp config name s left h

  read_and_create-stuck :
      (osp : Osp) (config : Kubeconfig) (name : String) (s : A.State)
      → (attempt
          (A.get_osc (osc_key_of r md))
          (create_unless_found A K P r md osp (create_osc A K P r md osp config name))
          s).0
        ≡ ok tt
      → ¬ Left (L.content s)
  unfolding attempt
  read_and_create-stuck osp config name s h left =
      let k = osc_key_of r md in
      create_unless_found-stuck osp config name (A.get_osc k s).0 _
        (subst (λ o. Answers o (A.get_osc k s).0) left.0 (L.get_osc_answer k s))
        ((Keeps-get_osc {L = L} {I = Left} k).at s left) h

  reconcile_configs-stuck :
      (osp : Osp) (s : A.State)
      → Left (L.content s)
      → (reconcile_configs A K P r md osp s).0 ≢ ok tt
  unfolding reconcile_configs
  reconcile_configs-stuck osp s left h =
      let one = bind-ok _ _ s h in
      read_and_create-stuck osp _ _ _ one.then_ok ((Keeps-wrap _ _ _ (parts.bootstrap _)).at s left)

  rotated-Left :
      (f : String) (a : List String) (osp : Osp) (s : A.State)
      → Left (L.content s)
      → Left (L.content (wrap f a (handle_rotation A K r md osp) s).1)
  rotated-Left f a osp s left =
      subst Left
        (sym (ap L.content (wrap-state f a _ s) ∙ handle_rotation-absent A L K r md osp s left.0))
        left

  reconcile_with-stuck :
      (osp : Osp) (s : A.State) → Left (L.content s) → (reconcile_with A K S P r md osp s).0 ≢ ok tt
  unfolding reconcile_with finish
  reconcile_with-stuck osp s left h =
      let one = bind-ok _ _ s h in
      let two = bind-ok _ _ _ one.then_ok in
      let three = bind-ok _ _ _ two.then_ok in
      let made = wrap-ok _ _ (reconcile_configs A K P r md osp) _ three.first in
      reconcile_configs-stuck osp _
        (rotated-Left _ _ osp _
          ((Keeps-wrap _ _ _ (check_osp-Keeps A L K S P r md Left osp)).at s left))
        made.0

  -- Where the API servers are lawful, the parts write no OSC and remove no Secret, and what is
  -- generated for the MachineDeployment is for the edge provider: a run that starts without its OSC
  -- but with a Secret of an earlier bootstrap script does not succeed.
  pub reconcile-stuck : (s : A.State) → Left (L.content s) → (reconcile A K S P r md s).0 ≢ ok tt
  unfolding reconcile
  reconcile-stuck s left h =
      let one = bind-ok _ _ s h in
      reconcile_with-stuck one.value _ (wrap-fetch_osp A L K S P r md _ _ Left s left) one.then_ok
