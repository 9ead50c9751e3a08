-- ===== src/Partition/Isolation.antt =====
-- Stores are isolated: a policy acts in the store whose names it mentions, and in no other unless it
-- is global.
use treetop_core.Prelude.{
  ℕ, List, [], ◌∷◌, some, ◌≡◌, arith, ◌⊎◌, inl, inr, ◌∙◌, sym, ap, subst, Member, string_eq,
}
use treetop_core.Error.{ok}
use treetop_core.Cedar.{Cedar}
use treetop_core.Cedar.Syntax.{Body}
use treetop_core.Store.Layout.{PolicyStoreLayout}
use treetop_core.Store.Layout.Ownership.{IsBuilt}
use treetop_core.Store.Assignment.{store}
use treetop_core.Store.Assignment.Candidates.{MentionedIn, policy_candidates-eq-ok}
use treetop_core.Partition.{scoped, partition_policy_set}
use treetop_core.Partition.Contents.{partition-Holds, partition-targets}
use treetop_core.Partition.Installed.{Holds}
use treetop_core.Partition.Targets.{
  Member-stores, local_targets-eq-ok, IsGlobal, IsAnnotated, explicit-IsAnnotated,
  target_indexes-eq-ok,
}

module _ (c : Cedar) where
  open c use {Policy, to_pst, PolicySet, policies}

  -- A policy that store `i` holds is global; or no store but `i` owns a name that occurs in it,
  -- and `i` owns one or is the store that the policy's `@treetop_store` names.
  pub partition_isolated :
      (source : PolicySet) (layout : PolicyStoreLayout) (stores : List PolicySet) (i : ℕ)
      (q : Policy)
      → partition_policy_set c source layout ≡ ok (scoped layout stores)
      → Holds c stores i q
      → IsGlobal c layout q
        ⊎ ((body : Body) × (to_pst q ≡ some body)
            × ((j : ℕ) → MentionedIn layout.namespace_router body j → j ≡ i)
            × (MentionedIn layout.namespace_router body i ⊎ IsAnnotated c layout q i))
  partition_isolated source layout stores i q h held =
      let (_, contents) = partition-Holds c source layout stores h in
      let (_, (targets, e, at)) = (contents i q).0 held in
      elim (target_indexes-eq-ok c layout q targets e) [
        | inl (g, _) ↦ inl g
        | inr (explicit, chosen, candidates, found, local) ↦
            let (body, parsed, mentioned, unique) =
              policy_candidates-eq-ok c layout q candidates found in
            let (k, one, only, why) =
              local_targets-eq-ok explicit candidates targets local unique in
            let here : Member i (k ∷ []) = subst (Member i) one at in
            let is_k : k ≡ i = ground arith in
            inr (
              body,
              parsed,
              (λ j m. only j ((mentioned j).1 m) ∙ is_k),
              elim why [
                | inl m ↦ inl ((mentioned i).0 (subst (λ x. Member x candidates) is_k m))
                | inr named ↦ inr (
                    explicit-IsAnnotated c layout q i
                      (chosen ∙ ap ok (named ∙ ap (λ x. some (store x)) is_k)))
              ],
            )
      ]

  -- In a layout that was built, every policy of the source in which a name owned by store `i` occurs
  -- is held by store `i`.
  pub partition_complete :
      (source : PolicySet) (layout : PolicyStoreLayout) (stores : List PolicySet) (i : ℕ)
      (q : Policy) (body : Body)
      → IsBuilt layout
      → partition_policy_set c source layout ≡ ok (scoped layout stores)
      → Member q (policies source)
      → to_pst q ≡ some body
      → MentionedIn layout.namespace_router body i
      → Holds c stores i q
  partition_complete source layout stores i q body built h member parsed mentions =
      let (_, contents) = partition-Holds c source layout stores h in
      let (targets, e) = partition-targets c source layout (scoped layout stores) q h member in
      let (name, at_name, owned) = mentions in
      let assigned : Member i targets = elim (target_indexes-eq-ok c layout q targets e) [
        | inl (_, everywhere) ↦
            subst (Member i) (sym everywhere) (Member-stores layout name i built owned)
        | inr (explicit, chosen, candidates, found, local) ↦
            let (body', parsed', mentioned, unique) =
              policy_candidates-eq-ok c layout q candidates found in
            let (k, one, only, why) =
              local_targets-eq-ok explicit candidates targets local unique in
            let same : body ≡ body' = cc (parsed, parsed') in
            let here : MentionedIn layout.namespace_router body' i =
              subst (λ (b : Body). MentionedIn layout.namespace_router b i) same mentions in
            let is_k : i ≡ k = only i ((mentioned i).1 here) in
            subst (Member i) (sym one) (inl is_k)
      ] in
      (contents i q).1 (member, (targets, e, assigned))
