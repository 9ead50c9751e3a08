-- ===== src/Partition/Contents.antt =====
-- What the stores of a partition hold.
use treetop_core.Prelude.{
  ℕ, String, List, [], ◌∷◌, ◌≡◌, arith, ◌⊎◌, inl, inr, ◌∙◌, sym, ap, subst, ◌↔◌, Member, length,
  replicate, get_elem?-replicate, length-replicate, contains, keep, not, string_eq,
}
use treetop_core.Error.{policy_store_config_error, ok, >>=-eq-ok, fail_if-eq-ok}
use treetop_core.Cedar.{Cedar}
use treetop_core.Store.Layout.{PolicyStoreLayout}
use treetop_core.Partition.Installed.{Holds, install-Holds, install-length}
use treetop_core.Partition.{
  PolicySets, scoped, target_indexes, install, assign_all, is_empty, partition_policy_set,
}

module _ (c : Cedar) where
  open c use {Policy, PolicySet, new_set_of_policies, policies, policies-new}

  -- A policy is assigned to a store if that store is among its targets.
  abbrev pub IsAssigned : PolicyStoreLayout → Policy → ℕ → Type 0
  IsAssigned layout q i =
      (targets : List ℕ) × (target_indexes c layout q ≡ ok targets) × Member i targets

  assign_all-cons :
      (layout : PolicyStoreLayout) (p : Policy) (ps : List Policy) (found : List String)
      (stores : List PolicySet) (done : List String × List PolicySet)
      → assign_all c layout (p ∷ ps) found stores ≡ ok done
      → (targets : List ℕ) × (mid : List PolicySet) × (later : List String) × (target_indexes c
            layout p
          ≡ ok targets)
        × (install c p targets stores ≡ ok mid)
        × (assign_all c layout ps later mid ≡ ok done)
  unfolding assign_all
  assign_all-cons layout p ps found stores done h =
      let (targets, e, h') = >>=-eq-ok (target_indexes c layout p) _ h in
      let (mid, e', h'') = >>=-eq-ok (install c p targets stores) _ h' in
      (targets, mid, _, e, e', h'')

  assign_all-Holds :
      (layout : PolicyStoreLayout) (ps : List Policy) (found : List String)
      (stores : List PolicySet) (done : List String × List PolicySet) (j : ℕ) (q : Policy)
      → assign_all c layout ps found stores ≡ ok done
      → Holds c done.1 j q ↔ (Holds c stores j q ⊎ (Member q ps × IsAssigned layout q j))
  assign_all-Holds layout [] found stores done j q h =
      let same : stores ≡ done.1 = unfold assign_all in ground arith in
      (
        λ m. inl (subst (λ ss. Holds c ss j q) (sym same) m),
        λ m. elim m [
          | inl old ↦ subst (λ ss. Holds c ss j q) same old
          | inr (no_member, _) ↦ absurd no_member
        ],
      )
  assign_all-Holds layout (p ∷ ps) found stores done j q h =
      let (targets, mid, later, e, e', rest) = assign_all-cons layout p ps found stores done h in
      let (there, back) = assign_all-Holds layout ps later mid done j q rest in
      let (here, put) = install-Holds c p targets stores mid j q e' in
      (
        λ m. elim (there m) [
          | inl now ↦ elim (here now) [
            | inl old ↦ inl old
            | inr (is_p, k) ↦ inr (inl is_p, (targets, ap (target_indexes c layout) is_p ∙ e, k))
          ]
          | inr (member, assigned) ↦ inr (inr member, assigned)
        ],
        λ m. elim m [
          | inl old ↦ back (inl (put (inl old)))
          | inr (member, (ts, es, k)) ↦ elim member [
            | inl is_p ↦
                let same : ts ≡ targets = cc (es, ap (target_indexes c layout) is_p, e) in
                back (inl (put (inr (is_p, subst (Member j) same k))))
            | inr later_member ↦ back (inr (later_member, (ts, es, k)))
          ]
        ],
      )

  assign_all-length :
      (layout : PolicyStoreLayout) (ps : List Policy) (found : List String)
      (stores : List PolicySet) (done : List String × List PolicySet)
      → assign_all c layout ps found stores ≡ ok done
      → length done.1 ≡ length stores
  assign_all-length layout [] found stores done h = unfold assign_all in ap length (ground arith)
  assign_all-length layout (p ∷ ps) found stores done h =
      let (targets, mid, later, _, e', rest) = assign_all-cons layout p ps found stores done h in
      assign_all-length layout ps later mid done rest ∙ install-length c p targets stores mid e'

  new_stores-Holds : (n i : ℕ) (q : Policy) → ¬ Holds c (replicate n new_set_of_policies) i q
  new_stores-Holds n i q (s, at, m) = subst (Member q) policies-new (
      subst (λ (x : PolicySet). Member q (policies x))
        (get_elem?-replicate n i new_set_of_policies at) m)

  pub partition-eq-ok :
      (source : PolicySet) (layout : PolicyStoreLayout) (sets : PolicySets c)
      → partition_policy_set c source layout ≡ ok sets
      → (found : List String) × (stores : List PolicySet) × (sets ≡ scoped layout stores)
        × (assign_all c layout
              (policies source)
              []
              (replicate (length layout.stores) new_set_of_policies)
            ≡ ok (found, stores))
  unfolding partition_policy_set
  partition-eq-ok source layout sets h =
      let (done, e, h') =
        >>=-eq-ok
          (assign_all c layout (policies source) []
            (replicate (length layout.stores) new_set_of_policies))
          _ h in
      let missing = keep (λ id. not (contains id done.0)) layout.global_policy_ids in
      let (_, h'') = fail_if-eq-ok (not (is_empty missing)) policy_store_config_error _ h' in
      let shape : scoped layout done.1 ≡ sets = cc h'' in (done.0, done.1, sym shape, e)

  -- Every policy of a source that is partitioned has targets.
  assign_all-targets :
      (layout : PolicyStoreLayout) (ps : List Policy) (found : List String)
      (stores : List PolicySet) (done : List String × List PolicySet) (q : Policy)
      → assign_all c layout ps found stores ≡ ok done
      → Member q ps
      → (targets : List ℕ) × (target_indexes c layout q ≡ ok targets)
  assign_all-targets layout [] found stores done q h m = absurd m
  assign_all-targets layout (p ∷ ps) found stores done q h m =
      let (targets, mid, later, e, _, rest) = assign_all-cons layout p ps found stores done h in
      elim m [
        | inl is_p ↦ (targets, ap (target_indexes c layout) is_p ∙ e)
        | inr later_member ↦ assign_all-targets layout ps later mid done q rest later_member
      ]

  pub partition-targets :
      (source : PolicySet) (layout : PolicyStoreLayout) (sets : PolicySets c) (q : Policy)
      → partition_policy_set c source layout ≡ ok sets
      → Member q (policies source)
      → (targets : List ℕ) × (target_indexes c layout q ≡ ok targets)
  partition-targets source layout sets q h m =
      let (found, stores, _, run) = partition-eq-ok source layout sets h in
      assign_all-targets layout (policies source) []
        (replicate (length layout.stores) new_set_of_policies) (found, stores) q run m

  -- A partition that succeeds has one set for each store of the layout, and the set of store `i`
  -- holds exactly the policies of the source that have `i` among their targets.
  pub partition-Holds :
      (source : PolicySet) (layout : PolicyStoreLayout) (stores : List PolicySet)
      → partition_policy_set c source layout ≡ ok (scoped layout stores)
      → (length stores ≡ length layout.stores)
        × ((i : ℕ) (q : Policy)
            → Holds c stores i q ↔ (Member q (policies source) × IsAssigned layout q i))
  partition-Holds source layout stores h =
      let (found, filled, shape, run) = partition-eq-ok source layout (scoped layout stores) h in
      let same : filled ≡ stores = ground arith in
      let empty = replicate (length layout.stores) new_set_of_policies in
      (
        ap length (sym same)
            ∙ assign_all-length layout (policies source) [] empty (found, filled) run
            ∙ length-replicate (length layout.stores) new_set_of_policies,
        λ i q.
            let (there, back) =
              assign_all-Holds layout (policies source) [] empty (found, filled) i q run in
            (
              λ m. elim (there (subst (λ ss. Holds c ss i q) (sym same) m)) [
                | inl old ↦ absurd (new_stores-Holds (length layout.stores) i q old)
                | inr new ↦ new
              ],
              λ m. subst (λ ss. Holds c ss i q) same (back (inr m)),
            ),
      )
