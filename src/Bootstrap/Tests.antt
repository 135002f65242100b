-- ===== src/Bootstrap/Tests.antt =====
-- A server that keeps its objects in memory, each under its own name, and a clock that stands still.
pub mod Examples
use mathlib.Core.Path.{subst}
use mathlib.Core.Option.{some-injective}
use operating_system_manager.Prelude.{
  String, ◌<>◌, ℕ, zero, suc, ◌+◌, ◌*◌, ◌/◌, Bool, true, false, Bool-cases, Option-cases, inl, inr,
  Option, none, some, List, [], ◌∷◌, ◌≡◌, refl, sym, ap, ◌∙◌, ◌==◌, ◌&&◌, eq_iff, arith,
  if◌then◌else◌,
}
use operating_system_manager.Prelude.Dict.{Dict, value}
use operating_system_manager.Prelude.Result.{
  Error, Result, ok, err, api, not_found, already_exists, ok-injective,
}
use operating_system_manager.Crd.{Osp, Osc}
use operating_system_manager.Machine.{
  Key, key_eq, key_eq_iff, MachineDeployment, Secret, Kubeconfig,
}
use operating_system_manager.Osc.Api.{Api}
use operating_system_manager.Osc.Api.Laws.{
  Content, IsLawful, Writes, set_at, md_key, stored_after, osc_key, secret_key,
}
use operating_system_manager.Osc.Tests.{answer, answer-Answers}
use operating_system_manager.ClusterInfo.{Source, EndpointSlice}
use operating_system_manager.Bootstrap.Cluster.{Cluster, Options, ServiceAccount}
use operating_system_manager.Bootstrap.Laws.{IsLawfulCluster, IsLabelled, AllLabelled}

-- Every Secret is stored under its own name.
abbrev pub IsFiled : Content → Type 0
IsFiled c = (k : Key) (x : Secret) → c.secrets k ≡ some x → secret_key x ≡ k

abbrev pub World : Type 0
World = (c : Content) × IsFiled c

pub filed :
    (x : Secret) (c : Content)
    → IsFiled c
    → IsFiled (record c { secrets = set_at (secret_key x) (some x) c.secrets })
filed x c f k y h = elim (Bool-cases (key_eq (secret_key x) k)) [
  | inl same ↦
      let found = some-injective x y (rw same at h) in
      ap secret_key (sym found) ∙ (key_eq_iff (secret_key x) k).0 same
  | inr other ↦ f k y (rw other at h)
]

pub removed :
    (j : Key) (c : Content) → IsFiled c → IsFiled (record c { secrets = set_at j none c.secrets })
removed j c f k y h = elim (Bool-cases (key_eq j k)) [
  | inl same ↦ absurd (cc (rw same at h))
  | inr other ↦ f k y (rw other at h)
]

abbrev pub with_secret : Secret → World → World
with_secret x (c, f) =
    (record c { secrets = set_at (secret_key x) (some x) c.secrets }, filed x c f)

abbrev without_secret : Key → World → World
without_secret k (c, f) = (record c { secrets = set_at k none c.secrets }, removed k c f)

abbrev pub with_oscs : (Key → Option Osc) → World → World
with_oscs oscs (c, f) = (record c { oscs = oscs }, f)

abbrev create_at : {A : Type 0} → Option A → World → World → Result (Unit {0}) × World
create_at none w v = (ok tt, v)
create_at (some a) w v = (err (api already_exists), w)

abbrev delete_at : {A : Type 0} → Option A → World → World → Result (Unit {0}) × World
delete_at none w v = (err (api not_found), w)
delete_at (some a) w v = (ok tt, v)

abbrev pub filing : Api
filing = record {
  State = World;
  get_md = λ k w. (answer (w.0.mds k), w);
  update_md =
      λ md w. (ok tt, (record w.0 { mds = set_at (md_key md) (stored_after md) w.0.mds }, w.1));
  get_osp = λ k w. (answer (w.0.osps k), w);
  get_osc = λ k w. (answer (w.0.oscs k), w);
  create_osc = λ o w.
      create_at (w.0.oscs (osc_key o)) w (with_oscs (set_at (osc_key o) (some o) w.0.oscs) w);
  delete_osc = λ k w. delete_at (w.0.oscs k) w (with_oscs (set_at k none w.0.oscs) w);
  get_secret = λ k w. (answer (w.0.secrets k), w);
  create_secret = λ x w. create_at (w.0.secrets (secret_key x)) w (with_secret x w);
  update_secret = λ x w. (ok tt, with_secret x w);
  delete_secret = λ k w. delete_at (w.0.secrets k) w (without_secret k w);
  get_local_secret = λ k w. (answer (w.0.secrets k), w);
  event = λ md reason e w. w;
}

pub create_at-Writes :
    {A : Type 0} (o : Option A) (w v : World)
    → Writes (create_at o w v).0 w.0 v.0 (create_at o w v).1.0
create_at-Writes none w v = refl
create_at-Writes (some a) w v = refl

pub create_at-fresh :
    {A : Type 0} (o : Option A) (w v : World) → (create_at o w v).0 ≡ ok tt → o ≡ none
create_at-fresh none w v h = refl
create_at-fresh (some a) w v h = cc

pub delete_at-Writes :
    {A : Type 0} (o : Option A) (w v : World)
    → Writes (delete_at o w v).0 w.0 v.0 (delete_at o w v).1.0
delete_at-Writes none w v = refl
delete_at-Writes (some a) w v = refl

pub delete_at-none :
    {A : Type 0} (o : Option A) (w v : World) (e : Error) → (delete_at o w v).0 ≡ err e → o ≡ none
delete_at-none none w v e h = refl
delete_at-none (some a) w v e h = cc

abbrev pub filing-IsLawful : IsLawful filing
filing-IsLawful = record {
  content = λ w. w.0;
  get_md_content = λ k w. refl;
  get_md_answer = λ k w. answer-Answers (w.0.mds k);
  get_osp_content = λ k w. refl;
  get_osp_answer = λ k w. answer-Answers (w.0.osps k);
  get_osc_content = λ k w. refl;
  get_osc_answer = λ k w. answer-Answers (w.0.oscs k);
  get_secret_content = λ k w. refl;
  get_secret_answer = λ k w. answer-Answers (w.0.secrets k);
  get_local_secret_content = λ k w. refl;
  update_md_writes = λ md w. refl;
  create_osc_writes = λ o w. create_at-Writes (w.0.oscs (osc_key o)) _ _;
  create_osc_fresh = λ o w h. create_at-fresh (w.0.oscs (osc_key o)) _ _ h;
  delete_osc_writes = λ k w. delete_at-Writes (w.0.oscs k) _ _;
  delete_osc_answer = λ k w e h _. delete_at-none (w.0.oscs k) _ _ e h;
  create_secret_writes = λ x w. create_at-Writes (w.0.secrets (secret_key x)) _ _;
  create_secret_fresh = λ x w h. create_at-fresh (w.0.secrets (secret_key x)) _ _ h;
  update_secret_writes = λ x w. refl;
  delete_secret_writes = λ k w. delete_at-Writes (w.0.secrets k) _ _;
  delete_secret_answer = λ k w e h _. delete_at-none (w.0.secrets k) _ _ e h;
  event_content = λ md reason e w. refl;
}

-- A time is written as one mark for each second.
unfoldable pub marks : ℕ → String
marks zero = String.[]
marks (suc n) = String.◌∷◌ "." (marks n)

unfoldable pub tally : String → ℕ
tally String.[] = 0
tally (String.◌∷◌ c s) = suc (tally s)

pub tally-marks : (n : ℕ) → tally (marks n) ≡ n
unfolding tally marks
tally-marks zero = refl
tally-marks (suc n) = ap suc (tally-marks n)

-- The key of the only token that is ever listed.
abbrev pub token_key : Key
token_key = record { namespace = "kube-system"; name = "bootstrap-token-abcdef" }

abbrev pub if_labelled : String → String → String → Option Secret → List Secret
if_labelled namespace label text none = []
if_labelled namespace label text (some x) =
    if x.namespace == namespace && value label x.labels == text then x ∷ [] else []

abbrev pub info : Kubeconfig
info = record {
  kind = "Config";
  api_version = "v1";
  clusters = ("", record { server = "https://10.0.0.1:6443"; ca_data = "ca" }) ∷ [];
  auth_infos = [];
  contexts = [];
  current_context = "";
}

abbrev pub source : Source World
source = record {
  get_config_map = λ k w. (ok (("kubeconfig", "text") ∷ []), w);
  list_endpoint_slices = λ w. (ok [], w);
  load = λ text. ok info;
  parse_ip = λ address. some address;
  join_host_port = λ host port. host <> (":" <> port);
}

abbrev pub cluster : Cluster World
cluster = record {
  source = source;
  Unstructured = String;
  get_unstructured = λ kind k w. (err (api not_found), w);
  marshal_json = λ u. ok u;
  unmarshal_service_account = λ text. err (api not_found);
  unmarshal_secret = λ text. err (api not_found);
  check_label = λ text. ok tt;
  list_secrets =
      λ namespace label text w. (ok (if_labelled namespace label text (w.0.secrets token_key)), w);
  now = λ w. (0, w);
  random_text = λ n w. ("abcdef", w);
  parse_time = λ text. ok (tally text * 1000000000);
  format_time = λ t. marks (t / 1000000000);
  write_kubeconfig = λ config. ok "kubeconfig";
}

pub if_labelled-AllLabelled :
    (namespace label text : String) (c : Content) (o : Option Secret)
    → IsFiled c
    → c.secrets token_key ≡ o
    → AllLabelled namespace label text c (if_labelled namespace label text o)
if_labelled-AllLabelled namespace label text c none f h = tt
if_labelled-AllLabelled namespace label text c (some x) f h =
    elim (Bool-cases (x.namespace == namespace && value label x.labels == text)) [
      | inl has ↦ rw has (
        record {
          stored = ap c.secrets (f token_key x h) ∙ h;
          inside = (eq_iff x.namespace namespace).0 (ground (arith, has));
          labelled = (eq_iff (value label x.labels) text).0 (ground (arith, has));
        },
        tt,
      )
      | inr lacks ↦ rw lacks tt
    ]

pub answered :
    (k : Key) (w : World) (o : Option Secret) (x : Secret)
    → w.0.secrets k ≡ o
    → answer o ≡ ok x
    → secret_key x ≡ k
answered k w none x h e = cc
answered k w (some y) x h e = w.1 k x (h ∙ ap some (ok-injective _ _ e))

abbrev pub cluster-IsLawful : IsLawfulCluster filing-IsLawful cluster
cluster-IsLawful = record {
  get_config_map_content = λ k w. refl;
  list_endpoint_slices_content = λ w. refl;
  get_unstructured_content = λ kind k w. refl;
  list_secrets_content = λ namespace label text w. refl;
  list_secrets_answer = λ namespace label text w.
      if_labelled-AllLabelled namespace label text w.0 (w.0.secrets token_key) w.1 refl;
  get_secret_named = λ k w x h. answered k w (w.0.secrets k) x refl h;
  now_content = λ w. refl;
  random_text_content = λ n w. refl;
  now_later = λ w. omega arith;
  list_secrets_later = λ namespace label text w. omega arith;
  random_text_later = λ n w. omega arith;
  parse-format = λ t. ap (λ n. ok (n * 1000000000)) (tally-marks (t / 1000000000));
}
