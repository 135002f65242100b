-- ===== src/Bootstrap/Live.antt =====
-- A bootstrap token that is handed out is stored, and does not expire soon.
use mathlib.Core.Path.{subst}
use operating_system_manager.Prelude.{
  String, Bool, false, if◌then◌else◌, Bool-cases, inl, inr, Option, none, some, List, [], ◌∷◌, ◌≡◌,
  refl, sym, ap, ◌∙◌, ℕ, ◌+◌, ◌*◌, ◌/◌, ◌≤◌, arith,
}
use operating_system_manager.Prelude.Dict.{lookup, value, value_or_empty, value-insert}
use operating_system_manager.Prelude.Result.{ok, ok-injective}
use operating_system_manager.Prelude.Exec.{pure}
use operating_system_manager.Prelude.Exec.Laws.{bind-ok, wrap-ok}
use operating_system_manager.Machine.{Secret}
use operating_system_manager.Osc.Api.{Api}
use operating_system_manager.Osc.Api.Laws.{Content, IsLawful, secret_key, written, set_self, set_at}
use operating_system_manager.Bootstrap.Cluster.{Cluster}
use operating_system_manager.Bootstrap.Token.{
  minute, kube_system, name_label, format_token, token_of, token_secret, at_most_one,
  get_secret_if_exists, renewed, expires_soon, renew, update_secret_expiration_and_get_token,
  create_token, token_at, create_bootstrap_token,
}
use operating_system_manager.Bootstrap.Laws.{
  IsLawfulCluster, IsLabelled, AllLabelled, Lists, get_secret_if_exists-Keeps,
}

-- A stored Secret of the MachineDeployment `name` holds the token, and expires after `t`.
pub record IsLive {S : Type 0} (C : Cluster S) (name token : String) (t : ℕ) (c : Content)
    : Type 0 where
  pub secret : Secret
  pub labelled : IsLabelled kube_system name_label name c secret
  pub holds : token_of secret ≡ token
  pub expiration : ℕ
  pub parsed : C.parse_time (value "expiration" secret.entries) ≡ ok expiration
  pub later : t ≤ expiration

pub IsLive-moved :
    {S : Type 0} {C : Cluster S} {name token token' : String} {t : ℕ} {c c' : Content}
    → token ≡ token'
    → c' ≡ c
    → IsLive C name token t c
    → IsLive C name token' t c'
IsLive-moved {C} {name} {t} {c} {c'} same moved live =
    subst (λ x. IsLive C name x t c') same (subst (IsLive C name _ t) (sym moved) live)

module _ {A : Api} (L : IsLawful A) (C : Cluster A.State) (M : IsLawfulCluster L C) where
  -- The Secret that was found, if any, is one of those that are stored for the name.
  abbrev Found : String → Content → Option Secret → Type 0
  Found name c none = Unit
  Found name c (some x) = IsLabelled kube_system name_label name c x

  at_most_one-Found :
      (name : String) (c : Content) (xs : List Secret) {o : Option Secret}
      → AllLabelled kube_system name_label name c xs
      → at_most_one A C name xs ≡ ok o
      → Found name c o
  unfolding at_most_one
  at_most_one-Found name c [] l h = subst (Found name c) (ok-injective _ _ h) tt
  at_most_one-Found name c (x ∷ []) l h = subst (Found name c) (ok-injective _ _ h) l.0
  at_most_one-Found name c (x ∷ y ∷ xs) l h = cc

  get_secret_if_exists-Found :
      (name : String) (s : A.State) {o : Option Secret}
      → (get_secret_if_exists A C name s).0 ≡ ok o
      → Found name (L.content s) o
  unfolding get_secret_if_exists
  get_secret_if_exists-Found name s h =
      let one = bind-ok _ _ s h in
      let two = bind-ok _ _ _ one.then_ok in
      at_most_one-Found name (L.content s) two.value
        (subst (Lists kube_system name_label name (L.content s)) two.first
          (M.list_secrets_answer kube_system name_label name s))
        two.then_ok

  get_secret_if_exists-content :
      (name : String) (s : A.State) → L.content (get_secret_if_exists A C name s).1 ≡ L.content s
  get_secret_if_exists-content name s =
      (get_secret_if_exists-Keeps M (λ c. c ≡ L.content s) name).at s refl

  get_secret_if_exists-later :
      (name : String) (s : A.State) {o : Option Secret}
      → (get_secret_if_exists A C name s).0 ≡ ok o
      → (C.now s).0 ≤ (C.now (get_secret_if_exists A C name s).1).0
  unfolding get_secret_if_exists
  get_secret_if_exists-later name s h =
      let one = bind-ok _ _ s h in
      let two = bind-ok _ _ _ one.then_ok in
      subst (λ u. (C.now s).0 ≤ (C.now u).0) (sym (one.state ∙ two.state))
        (M.list_secrets_later kube_system name_label name s)

  -- A Secret that was just written, with an expiration of an hour from a time after `t`.
  written-IsLive :
      (name : String) (y : Secret) (t u : ℕ) (c : Content) {after : Content}
      → after ≡ record c { secrets = set_at (secret_key y) (some y) c.secrets }
      → y.namespace ≡ kube_system
      → value name_label y.labels ≡ name
      → value "expiration" y.entries ≡ C.format_time (u + 60 * minute)
      → t ≤ u
      → IsLive C name (token_of y) (t + 30 * minute) after
  written-IsLive name y t u c made inside labelled expires le = record {
    secret = y;
    labelled = record {
      stored = ap (λ a. a.secrets (secret_key y)) made ∙ set_self (secret_key y) (some y) c.secrets;
      inside = inside;
      labelled = labelled;
    };
    holds = refl;
    expiration = (u + 60 * minute) / 1000000000 * 1000000000;
    parsed = ap C.parse_time expires ∙ M.parse-format _;
    later = omega arith;
  }

  renewed-expires :
      (x : Secret) (u : ℕ)
      → value "expiration" (renewed A C x u).entries ≡ C.format_time (u + 60 * minute)
  unfolding renewed
  renewed-expires x u = value-insert "expiration" "expiration" _ x.entries

  token_of-renewed : (x : Secret) (u : ℕ) → token_of (renewed A C x u) ≡ token_of x
  unfolding renewed token_of
  token_of-renewed x u =
      rw (value-insert "expiration" "token-id" (C.format_time (u + 60 * minute)) x.entries) (
        rw (value-insert "expiration" "token-secret" (C.format_time (u + 60 * minute)) x.entries)
          refl)

  renew-IsLive :
      (name : String) (x : Secret) (t : ℕ) (s : A.State)
      → x.namespace ≡ kube_system
      → value name_label x.labels ≡ name
      → t ≤ (C.now s).0
      → (renew A C x s).0 ≡ ok tt
      → IsLive C name (token_of x) (t + 30 * minute) (L.content (renew A C x s).1)
  unfolding renew renewed
  renew-IsLive name x t s inside labelled le h =
      let one = bind-ok _ _ s h in
      let read = ok-injective _ _ one.first in
      let update = wrap-ok _ _ _ _ one.then_ok in
      let made = written _ _ _ (L.update_secret_writes _ _) update.0 in
      subst (λ token. IsLive C name token (t + 30 * minute) (L.content (renew A C x s).1))
        (token_of-renewed x one.value)
        (written-IsLive name (renewed A C x one.value) t one.value _
          (ap L.content (one.state ∙ update.1) ∙ made) inside labelled (renewed-expires x one.value)
          (rw (sym read) le))

  -- A Secret that does not expire soon is left as it is.
  kept-IsLive :
      (name : String) (x : Secret) (e t u : ℕ) (c : Content)
      → IsLabelled kube_system name_label name c x
      → C.parse_time (value "expiration" x.entries) ≡ ok e
      → t ≤ u
      → expires_soon A C e u ≡ false
      → IsLive C name (token_of x) (t + 30 * minute) c
  unfolding expires_soon
  kept-IsLive name x e t u c found parsed le late = record {
    secret = x;
    labelled = found;
    holds = refl;
    expiration = e;
    parsed = parsed;
    later = ground arith;
  }

  renew_if-IsLive :
      (name : String) (x : Secret) (e t u : ℕ) (s : A.State)
      → IsLabelled kube_system name_label name (L.content s) x
      → C.parse_time (value "expiration" x.entries) ≡ ok e
      → t ≤ u
      → t ≤ (C.now s).0
      → ((if expires_soon A C e u then renew A C x else pure tt) s).0 ≡ ok tt
      → IsLive C name
          (token_of x)
          (t + 30 * minute)
          (L.content ((if expires_soon A C e u then renew A C x else pure tt) s).1)
  renew_if-IsLive name x e t u s found parsed le_u le_s h =
      elim (Bool-cases (expires_soon A C e u)) [
        | inl soon ↦
            rw soon (renew-IsLive name x t s found.inside found.labelled le_s (rw soon at h))
        | inr late ↦ rw late (kept-IsLive name x e t u (L.content s) found parsed le_u late)
      ]

  update-IsLive :
      (name : String) (x : Secret) (t : ℕ) (s : A.State) {token : String}
      → IsLabelled kube_system name_label name (L.content s) x
      → t ≤ (C.now s).0
      → (update_secret_expiration_and_get_token A C x s).0 ≡ ok token
      → IsLive C name token
          (t + 30 * minute)
          (L.content (update_secret_expiration_and_get_token A C x s).1)
  unfolding update_secret_expiration_and_get_token
  update-IsLive name x t s found le h =
      let one = bind-ok _ _ s h in
      let two = bind-ok _ _ _ one.then_ok in
      let read = ok-injective _ _ two.first in
      let three = bind-ok _ _ _ two.then_ok in
      let done =
        renew_if-IsLive name x one.value t two.value (C.now s).1
          (subst (λ c. IsLabelled kube_system name_label name c x) (sym (M.now_content s)) found)
          one.first (rw (sym read) le) (omega (arith, M.now_later s)) three.first in
      IsLive-moved (ok-injective _ _ three.then_ok)
        (ap L.content (one.state ∙ two.state ∙ three.state)) done

  create_token-IsLive :
      (name : String) (t : ℕ) (s : A.State) {token : String}
      → t ≤ (C.now s).0
      → (create_token A C name s).0 ≡ ok token
      → IsLive C name token (t + 30 * minute) (L.content (create_token A C name s).1)
  unfolding create_token token_secret value value_or_empty lookup format_token token_of
  create_token-IsLive name t s le h =
      let one = bind-ok _ _ s h in
      let two = bind-ok _ _ _ one.then_ok in
      let three = bind-ok _ _ _ two.then_ok in
      let four = bind-ok _ _ _ three.then_ok in
      let create = wrap-ok _ _ _ _ four.first in
      let made = written _ _ _ (L.create_secret_writes _ _) create.0 in
      let read = ok-injective _ _ three.first in
      let later_1 = M.random_text_later 6 s in
      let later_2 = M.random_text_later 16 (C.random_text 6 s).1 in
      IsLive-moved (ok-injective _ _ four.then_ok)
        (ap L.content (one.state ∙ two.state ∙ three.state ∙ four.state ∙ create.1))
        (written-IsLive name _ t three.value _ made refl refl refl (rw (sym read) (omega arith)))

  token_at-IsLive :
      (name : String) (o : Option Secret) (t : ℕ) (s : A.State) {token : String} {updated : Bool}
      → Found name (L.content s) o
      → t ≤ (C.now s).0
      → (token_at A C name o s).0 ≡ ok (token, updated)
      → IsLive C name token (t + 30 * minute) (L.content (token_at A C name o s).1)
  unfolding token_at
  token_at-IsLive name none t s found le h =
      let one = bind-ok _ _ s h in
      IsLive-moved (ap (λ p. p.0) (ok-injective _ _ one.then_ok)) (ap L.content one.state)
        (create_token-IsLive name t s le one.first)
  token_at-IsLive name (some x) t s found le h =
      let one = bind-ok _ _ s h in
      let update = wrap-ok _ _ _ s one.first in
      IsLive-moved (ap (λ p. p.0) (ok-injective _ _ one.then_ok))
        (ap L.content (one.state ∙ update.1)) (update-IsLive name x t s found le update.0)

  -- Where the API server and the clock are lawful, a bootstrap token that createBootstrapToken
  -- answers with is that of a Secret of kube-system that is stored afterwards, is labelled with the
  -- given name, and expires no sooner than half an hour after the call began, whether it is a new
  -- one or was there.
  pub create_bootstrap_token-IsLive :
      (name : String) (s : A.State) {token : String} {updated : Bool}
      → (create_bootstrap_token A C name s).0 ≡ ok (token, updated)
      → IsLive C name token
          ((C.now s).0 + 30 * minute)
          (L.content (create_bootstrap_token A C name s).1)
  unfolding create_bootstrap_token
  create_bootstrap_token-IsLive name s h =
      let one = bind-ok _ _ s h in
      IsLive-moved refl (ap L.content one.state) (
        token_at-IsLive name one.value (C.now s).0 _
          (subst (λ c. Found name c one.value) (sym (get_secret_if_exists-content name s))
            (get_secret_if_exists-Found name s one.first))
          (get_secret_if_exists-later name s one.first) one.then_ok)
