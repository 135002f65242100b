-- ===== src/Resources/PairsLaws.antt =====
-- A list of pairs, as getKeyValueMap reads it.
use mathlib.Core.Path.{subst}
use Prim.Native.Char.{Char, code}
use text.Mathlib.TextLemmas.{nil-append, cons-append}
use operating_system_manager.Prelude.{
  String, ◌<>◌, Option, none, some, [], ◌∷◌, ◌≡◌, refl, ap, ◌∙◌, ℕ, Bool, true, Bool-cases, inl,
  inr, ◌&&◌, not, nat_eq, arith, eq_iff, ◌==◌,
}
use operating_system_manager.Prelude.Text.{split, split_2, cons_head, cons_first}
use operating_system_manager.Prelude.Dict.{Dict, lookup, insert, lookup-insert, IsMap}
use operating_system_manager.ClusterInfo.{or_else}
use operating_system_manager.Resources.Kubelet.{insert_parts, add_pairs, get_key_value_map}

-- A text without the character of a code.
unfoldable pub lacks : ℕ → String → Bool
lacks k String.[] = true
lacks k (String.◌∷◌ c s) = not (nat_eq (code c) k) && lacks k s

-- A separator, as a text and by its code.
pub record IsSeparator (text : String) (k : ℕ) : Type 0 where
  pub character : Char
  pub alone : text ≡ String.◌∷◌ character String.[]
  pub its_code : code character ≡ k

module _ (t : String) (k : ℕ) (sep : IsSeparator t k) where
  front : (s : String) → t <> s ≡ String.◌∷◌ sep.character s
  front s =
      ap (λ x. x <> s) sep.alone
      ∙ (cons-append sep.character String.[] s ∙ ap (String.◌∷◌ sep.character) (nil-append s))

  split_2-separator : (v : String) → split_2 k (t <> v) ≡ some ("", v)
  unfolding split_2
  split_2-separator v = rw (front v) (rw sep.its_code (ground arith))

  split-separator : (v : String) → split k (t <> v) ≡ "" ∷ split k v
  unfolding split
  split-separator v = rw (front v) (rw sep.its_code (ground arith))

  split_2-joined : (a v : String) → lacks k a ≡ true → split_2 k (a <> (t <> v)) ≡ some (a, v)
  unfolding lacks split_2 cons_first
  split_2-joined String.[] v h = rw (nil-append (t <> v)) (split_2-separator v)
  split_2-joined (String.◌∷◌ c s) v h = elim (Bool-cases (nat_eq (code c) k)) [
    | inl same ↦ absurd (ground arith)
    | inr other ↦
        rw (cons-append c s (t <> v)) (rw other (rw (split_2-joined s v (rw other at h)) refl))
  ]

  split-joined : (a b : String) → lacks k a ≡ true → split k (a <> (t <> b)) ≡ a ∷ split k b
  unfolding lacks split cons_head
  split-joined String.[] b h = rw (nil-append (t <> b)) (split-separator b)
  split-joined (String.◌∷◌ c s) b h = elim (Bool-cases (nat_eq (code c) k)) [
    | inl same ↦ absurd (ground arith)
    | inr other ↦
        rw (cons-append c s (t <> b)) (rw other (rw (split-joined s b (rw other at h)) refl))
  ]

split-lacks : (k : ℕ) (a : String) → lacks k a ≡ true → split k a ≡ a ∷ []
unfolding lacks split cons_head
split-lacks k String.[] h = refl
split-lacks k (String.◌∷◌ c s) h = elim (Bool-cases (nat_eq (code c) k)) [
  | inl same ↦ absurd (ground arith)
  | inr other ↦ rw other (rw (split-lacks k s (rw other at h)) refl)
]

lacks-append :
    (k : ℕ) (a b : String) → lacks k a ≡ true → lacks k b ≡ true → lacks k (a <> b) ≡ true
unfolding lacks
lacks-append k String.[] b h g = rw (nil-append b) g
lacks-append k (String.◌∷◌ c s) b h g = elim (Bool-cases (nat_eq (code c) k)) [
  | inl same ↦ absurd (ground arith)
  | inr other ↦ rw (cons-append c s b) (rw other (lacks-append k s b (rw other at h) g))
]

-- The text of a list of pairs, with a text between a key and its value.
unfoldable pub show_pair : String → String → String → String
show_pair t k v = k <> (t <> v)

unfoldable pub show_pairs : String → Dict String → String
show_pairs t [] = ""
show_pairs t ((k, v) ∷ []) = show_pair t k v
show_pairs t ((k, v) ∷ (p ∷ ps)) = show_pair t k v <> ("," <> show_pairs t (p ∷ ps))

-- No key has the separator, and no key and no value has a comma.
abbrev pub AreWritable : ℕ → Dict String → Type 0
AreWritable sep [] = Unit
AreWritable sep ((k, v) ∷ ps) =
    (lacks sep k ≡ true) × (lacks 44 k ≡ true) × (lacks 44 v ≡ true) × AreWritable sep ps

-- The pairs, written to a map one by one.
insert_pairs : Dict String → Dict String → Dict String
insert_pairs [] res = res
insert_pairs ((k, v) ∷ ps) res = insert_pairs ps (insert k v res)

-- One that is written first is found where no later one has its key.
lookup-insert_pairs :
    (j : String) (ps res : Dict String)
    → IsMap ps
    → lookup j (insert_pairs ps res) ≡ or_else (lookup j ps) (lookup j res)
unfolding lookup or_else insert_pairs
lookup-insert_pairs j [] res h = refl
lookup-insert_pairs j ((k, v) ∷ ps) res h =
    lookup-insert_pairs j ps (insert k v res) h.1
    ∙ rw lookup-insert (elim (Bool-cases (k == j)) [
      | inl same ↦
          let gone : lookup j ps ≡ none =
            subst (λ i. lookup i ps ≡ none) ((eq_iff k j).0 same) h.0 in
          rw same (rw gone refl)
      | inr other ↦ rw other refl
    ])

comma : IsSeparator "," 44
comma = record { character = ","; alone = refl; its_code = refl }

module _ (t : String) (k : ℕ) (sep : IsSeparator t k) (plain : lacks 44 t ≡ true) where
  show_pair-lacks :
      (key v : String)
      → lacks 44 key ≡ true
      → lacks 44 v ≡ true
      → lacks 44 (show_pair t key v) ≡ true
  unfolding show_pair
  show_pair-lacks key v h g = lacks-append 44 key (t <> v) h (lacks-append 44 t v plain g)

  insert_parts-show :
      (key v : String) (res : Dict String)
      → lacks k key ≡ true
      → insert_parts (split_2 k (show_pair t key v)) res ≡ insert key v res
  unfolding show_pair insert_parts
  insert_parts-show key v res h = rw (split_2-joined t k sep key v h) refl

  add_pairs-show :
      (ps res : Dict String)
      → AreWritable k ps
      → add_pairs k (split 44 (show_pairs t ps)) res ≡ insert_pairs ps res
  unfolding show_pairs add_pairs insert_parts split split_2 insert_pairs
  add_pairs-show [] res h = refl
  add_pairs-show ((key, v) ∷ []) res h =
      ap (λ l. add_pairs k l res) (split-lacks 44 _ (show_pair-lacks key v h.1 h.2))
      ∙ insert_parts-show key v res h.0
  add_pairs-show ((key, v) ∷ (p ∷ ps)) res h =
      ap (λ l. add_pairs k l res)
        (split-joined "," 44 comma _ (show_pairs t (p ∷ ps)) (show_pair-lacks key v h.1 h.2))
      ∙ (ap (add_pairs k (split 44 (show_pairs t (p ∷ ps)))) (insert_parts-show key v res h.0)
          ∙ add_pairs-show (p ∷ ps) (insert key v res) h.3)

or_else-none : {A : Type 0} (o : Option A) → or_else o none ≡ o
unfolding or_else
or_else-none none = refl
or_else-none (some a) = refl

-- A list of pairs with distinct keys is read back: where it is written with commas between the pairs
-- and one character between a key and its value, which stands in no key and is no comma, and where no
-- key and no value has a comma, getKeyValueMap gives each key its value and no other.
pub lookup-get_key_value_map :
    (t : String) (k : ℕ)
    → IsSeparator t k
    → lacks 44 t ≡ true
    → (ps : Dict String) → IsMap ps
    → AreWritable k ps
    → (j : String) → lookup j (get_key_value_map (show_pairs t ps) k) ≡ lookup j ps
unfolding get_key_value_map lookup
lookup-get_key_value_map t k sep plain ps distinct writable j =
    ap (lookup j) (add_pairs-show t k sep plain ps [] writable)
    ∙ (lookup-insert_pairs j ps [] distinct ∙ or_else-none (lookup j ps))
