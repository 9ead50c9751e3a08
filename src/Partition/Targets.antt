-- ===== src/Partition/Targets.antt =====
-- Which stores `partition_policy_set` of src/engine.rs chooses for a policy.
use treetop_core.Prelude.{
  ℕ, zero, suc, ◌+◌, ◌<◌, String, List, [], ◌∷◌, Option, none, some, true, ◌≡◌, ◌≢◌, refl, arith,
  Option-cases, Bool-cases, ◌⊎◌, inl, inr, ◌∙◌, sym, ap, subst, ◌&&◌, Member, length, get_elem?,
  ◌==◌, range, string_eq, eq_iff,
}
use treetop_core.Error.{policy_store_config_error, ok, ◌>>=◌, >>=-eq-ok, fail_if-eq-ok}
use treetop_core.Names.{split_name}
use treetop_core.Cedar.{Cedar}
use treetop_core.Store.Layout.{PolicyStoreConfig, PolicyStoreLayout, resolve_qualified_name}
use treetop_core.Store.Layout.Ownership.{IsBuilt, resolve_iff}
use treetop_core.Store.Assignment.{
  ExplicitPolicyStore, global, store, explicit_policy_store, policy_candidates,
  policy_store_annotation, store_index_by_id, position,
}
use treetop_core.Store.Assignment.Candidates.{policy_candidates-eq-ok}
use treetop_core.Partition.{
  is_global, is_store, local_targets, registered_global, targets_of, target_indexes,
}

Member-range : (start n i : ℕ) → i < n → Member (start + i) (range start n)
Member-range start zero i h = absurd (omega arith)
Member-range start (suc n) zero h = inl (omega arith)
Member-range start (suc n) (suc i) h =
    let shift : suc start + i ≡ start + suc i = omega arith in
    inr (
      subst (λ k. Member k (range (suc start) n)) shift
        (Member-range (suc start) n i (omega arith)))

get_elem?-lt {ℓ} :
    {A : Type ℓ} (xs : List A) (i : ℕ) {a : A} → get_elem? xs i ≡ some a → i < length xs
get_elem?-lt [] i h = cc
get_elem?-lt (x ∷ xs) zero h = omega arith
get_elem?-lt (x ∷ xs) (suc i) h = let k = get_elem?-lt xs i h in omega arith

-- The targets of a local policy are one store, its candidates are at most that one, and the store is
-- a candidate or the explicit one.
pub local_targets-eq-ok :
    (explicit : Option ExplicitPolicyStore) (candidates targets : List ℕ)
    → local_targets explicit candidates ≡ ok targets
    → ((i j : ℕ) → Member i candidates → Member j candidates → i ≡ j)
    → (i : ℕ) × (targets ≡ i ∷ [])
      × ((j : ℕ) → Member j candidates → j ≡ i)
      × (Member i candidates ⊎ (explicit ≡ some (store i)))
unfolding local_targets
local_targets-eq-ok (some (store k)) [] targets h u = (k, ground arith, (λ j m. absurd m), inr refl)
local_targets-eq-ok (some (store k)) (x ∷ xs) targets h u =
    (k, ground arith, (λ j m. u j x m (inl refl) ∙ ground arith), inr refl)
local_targets-eq-ok (some global) candidates targets h u = cc
local_targets-eq-ok none [] targets h u = cc
local_targets-eq-ok none (k ∷ []) targets h u = (k, cc, (λ j m. u j k m (inl refl)), inl (inl refl))
local_targets-eq-ok none (k ∷ l ∷ ks) targets h u = cc

position-eq-some :
    (index : ℕ) (id : String) (ss : List PolicyStoreConfig) (i : ℕ)
    → position index id ss ≡ some i
    → (k : ℕ) × (i ≡ index + k) × (s : PolicyStoreConfig) × (get_elem? ss k ≡ some s) × (s.id ≡ id)
unfolding position
position-eq-some index id [] i h = cc
position-eq-some index id (s ∷ ss) i h = elim (Bool-cases (s.id == id)) [
  | inl same ↦ (zero, ground arith, s, refl, (eq_iff s.id id).0 same)
  | inr other ↦
      let (k, e, t, at, same) = position-eq-some (suc index) id ss i (ground arith) in
      (suc k, omega arith, t, at, same)
]

-- A store that owns a name is one of the layout's.
pub Member-stores :
    (layout : PolicyStoreLayout) (name : String) (i : ℕ)
    → IsBuilt layout
    → resolve_qualified_name name layout.namespace_router ≡ some i
    → Member i (range 0 (length layout.stores))
unfolding resolve_qualified_name
Member-stores layout name i built owned =
    let (s, at, _) = (resolve_iff layout (split_name name) i built).0 owned in
    let shift : 0 + i ≡ i = omega arith in
    subst (λ k. Member k (range 0 (length layout.stores))) shift
      (Member-range 0 (length layout.stores) i (get_elem?-lt layout.stores i at))

length-nonempty {ℓ} : {A : Type ℓ} (xs : List A) → xs ≢ [] → (n : ℕ) × (length xs ≡ suc n)
length-nonempty [] h = absurd (h refl)
length-nonempty (x ∷ xs) h = (length xs, refl)

module _ (c : Cedar) where
  open c use {Policy, annotation, to_pst, PolicySet, policies}

  -- Registered by its `@id`, or annotated `@treetop_store("*")`.
  abbrev pub IsGlobal : PolicyStoreLayout → Policy → Type 0
  IsGlobal layout q =
      (registered_global c layout q ≡ true) ⊎ (annotation q policy_store_annotation ≡ some "*")

  explicit-global :
      (layout : PolicyStoreLayout) (q : Policy)
      → explicit_policy_store c layout q ≡ ok (some global)
      → annotation q policy_store_annotation ≡ some "*"
  unfolding explicit_policy_store
  explicit-global layout q h = elim (Option-cases (annotation q policy_store_annotation)) [
    | inl e ↦ absurd (ground arith)
    | inr (v, e) ↦ elim (Option-cases (store_index_by_id layout v)) [
      | inl unknown ↦ ground (arith, eq_iff v "*")
      | inr (i, known) ↦ ground (arith, eq_iff v "*")
    ]
  ]

  -- `@treetop_store` of the policy is the id of store `i`.
  abbrev pub IsAnnotated : PolicyStoreLayout → Policy → ℕ → Type 0
  IsAnnotated layout q i =
      (s : PolicyStoreConfig) × (get_elem? layout.stores i ≡ some s)
      × (annotation q policy_store_annotation ≡ some s.id)

  pub explicit-IsAnnotated :
      (layout : PolicyStoreLayout) (q : Policy) (i : ℕ)
      → explicit_policy_store c layout q ≡ ok (some (store i))
      → IsAnnotated layout q i
  unfolding explicit_policy_store store_index_by_id
  explicit-IsAnnotated layout q i h = elim (Option-cases (annotation q policy_store_annotation)) [
    | inl e ↦ absurd (ground arith)
    | inr (v, e) ↦ elim (Option-cases (store_index_by_id layout v)) [
      | inl unknown ↦ absurd (ground arith)
      | inr (j, known) ↦
          let is_i : j ≡ i = ground arith in
          let (k, at_k, s, at, same) = position-eq-some 0 v layout.stores j known in
          let here : k ≡ i = omega arith in (s, rw (← here) at, e ∙ ap some (sym same))
    ]
  ]

  is_global→eq : (o : Option ExplicitPolicyStore) → is_global o ≡ true → o ≡ some global
  is_global→eq none h = cc
  is_global→eq (some global) h = refl
  is_global→eq (some (store i)) h = cc

  targets_of-eq-ok :
      (layout : PolicyStoreLayout) (q : Policy) (explicit : Option ExplicitPolicyStore)
      (targets : List ℕ)
      → explicit_policy_store c layout q ≡ ok explicit
      → targets_of c layout q (registered_global c layout q) explicit ≡ ok targets
      → (IsGlobal layout q × (targets ≡ range 0 (length layout.stores)))
        ⊎ ((found : Option ExplicitPolicyStore) × (explicit_policy_store c layout q ≡ ok found)
            × (candidates : List ℕ) × (policy_candidates c layout q ≡ ok candidates)
            × (local_targets found candidates ≡ ok targets))
  unfolding targets_of
  targets_of-eq-ok layout q explicit targets e h =
      let registered = registered_global c layout q in
      let (_, h') = fail_if-eq-ok (registered && is_store explicit) policy_store_config_error _ h in
      elim (Bool-cases registered) [
        | inl yes_registered ↦ inl (inl yes_registered, ground arith)
        | inr not_registered ↦ elim (Bool-cases (is_global explicit)) [
          | inl g ↦
              inl
                (inr (explicit-global layout q (e ∙ ap ok (is_global→eq explicit g))), ground arith)
          | inr l ↦
              let run : (policy_candidates c layout q >>= local_targets explicit) ≡ ok targets =
                ground arith in
              let (candidates, found, done) = >>=-eq-ok (policy_candidates c layout q) _ run in
              inr (explicit, e, candidates, found, done)
        ]
      ]

  -- The two ways to have targets.
  pub target_indexes-eq-ok :
      (layout : PolicyStoreLayout) (q : Policy) (targets : List ℕ)
      → target_indexes c layout q ≡ ok targets
      → (IsGlobal layout q × (targets ≡ range 0 (length layout.stores)))
        ⊎ ((explicit : Option ExplicitPolicyStore) × (explicit_policy_store c layout q
              ≡ ok explicit)
            × (candidates : List ℕ) × (policy_candidates c layout q ≡ ok candidates)
            × (local_targets explicit candidates ≡ ok targets))
  unfolding target_indexes
  target_indexes-eq-ok layout q targets h =
      let (explicit, e, h') = >>=-eq-ok (explicit_policy_store c layout q) _ h in
      targets_of-eq-ok layout q explicit targets e h'

  -- Where there are stores, a policy with targets has at least one.
  pub target_indexes-nonempty :
      (layout : PolicyStoreLayout) (q : Policy) (targets : List ℕ)
      → layout.stores ≢ []
      → target_indexes c layout q ≡ ok targets
      → (i : ℕ) × Member i targets
  target_indexes-nonempty layout q targets some_store h =
      elim (target_indexes-eq-ok layout q targets h) [
        | inl (_, everywhere) ↦
            let (n, long) = length-nonempty layout.stores some_store in
            (
              0,
              subst (Member 0) (sym everywhere)
                  (subst (λ k. Member 0 (range 0 k)) (sym long) (inl refl)),
            )
        | inr (explicit, _, candidates, found, local) ↦
            let (_, _, _, unique) = policy_candidates-eq-ok c layout q candidates found in
            let (k, one, _, _) = local_targets-eq-ok explicit candidates targets local unique in
            (k, rw one (inl refl))
      ]
