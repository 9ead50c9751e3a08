-- ===== src/Listing/Partitioned.antt =====
-- Listings over the stores of a partition and over the source that was partitioned.
use treetop_core.Prelude.{
  ℕ, zero, suc, String, List, [], ◌∷◌, Option, ◌≡◌, ◌≢◌, sym, subst, inl, inr, ◌↔◌, Member,
  Member-append,
}
use treetop_core.Prelude.Sorting.{IsStrict-unique}
use treetop_core.Error.{ok}
use treetop_core.Cedar.{Cedar}
use treetop_core.Types.Resource.{Resource}
use treetop_core.Query.{PrincipalQuery, ActionQuery}
use treetop_core.Match.{PolicyEffectFilter}
use treetop_core.Store.Layout.{PolicyStoreLayout}
use treetop_core.Partition.{monolithic, scoped, all_sets, partition_policy_set}
use treetop_core.Partition.Contents.{partition-Holds, partition-targets}
use treetop_core.Partition.Installed.{Holds}
use treetop_core.Partition.Targets.{target_indexes-nonempty}
use treetop_core.Partition.Coherent.{
  Member-policies_in, partition-IsCoherent, monolithic-IsCoherent,
}
use treetop_core.Listing.{policies_in, list_policies_dispatch}
use treetop_core.Listing.Candidates.{stored, listed_iff, listed-IsStrict}

module _ (c : Cedar) where
  open c use {Policy, PolicySet, policies}

  Holds-policies_in :
      (stores : List PolicySet) (i : ℕ) (p : Policy)
      → Holds c stores i p
      → Member p (policies_in c stores)
  Holds-policies_in [] i p (s, at, m) = cc at
  Holds-policies_in (s ∷ ss) zero p (t, at, m) =
      (Member-append p (policies s) (policies_in c ss)).1
        (inl (subst (λ (x : PolicySet). Member p (policies x)) (sym (cc at)) m))
  Holds-policies_in (s ∷ ss) (suc i) p held =
      (Member-append p (policies s) (policies_in c ss)).1 (inr (Holds-policies_in ss i p held))

  -- The stores of a partition hold together what the source holds.
  Member-stored_iff :
      (source : PolicySet) (layout : PolicyStoreLayout) (stores : List PolicySet) (p : Policy)
      → partition_policy_set c source layout ≡ ok (scoped layout stores)
      → layout.stores ≢ []
      → Member p (policies_in c stores) ↔ Member p (policies source)
  Member-stored_iff source layout stores p h some_store =
      let (_, contents) = partition-Holds c source layout stores h in
      (
        λ m. let (i, held) = Member-policies_in c stores p m in ((contents i p).0 held).0,
        λ m.
            let (targets, e) = partition-targets c source layout (scoped layout stores) p h m in
            let (i, at) = target_indexes-nonempty c layout p targets some_store e in
            Holds-policies_in stores i p ((contents i p).1 (m, (targets, e, at))),
      )

  Member-monolithic_iff :
      (source : PolicySet) (p : Policy)
      → Member p (stored c (monolithic source)) ↔ Member p (policies source)
  unfolding all_sets
  Member-monolithic_iff source p = (
    λ m. elim ((Member-append p (policies source) []).0 m) [ inl k ↦ k | inr k ↦ absurd k ],
    λ m. (Member-append p (policies source) []).1 (inl m),
  )

  -- Partitioning changes no listing: over the stores of a partition it names the same policies, in
  -- the same order, as over the whole source, and so none is lost, added or named twice.
  pub partition-listing :
      (source : PolicySet) (layout : PolicyStoreLayout) (stores : List PolicySet)
      (principal : PrincipalQuery c) (action : Option (ActionQuery c))
      (resource : Option (Resource c)) (filter : PolicyEffectFilter) (id : String)
      → partition_policy_set c source layout ≡ ok (scoped layout stores)
      → layout.stores ≢ []
      → let over_stores =
          list_policies_dispatch c (scoped layout stores) id principal action resource filter in
        let over_source =
          list_policies_dispatch c (monolithic source) id principal action resource filter in
        over_stores.policies ≡ over_source.policies
  unfolding all_sets
  partition-listing source layout stores principal action resource filter id h some_store =
      IsStrict-unique c.id_order c.policy_id _ _
        (listed-IsStrict c principal action resource filter (scoped layout stores) id)
        (listed-IsStrict c principal action resource filter (monolithic source) id)
        (λ p.
          let over_stores =
            listed_iff c principal action resource filter (scoped layout stores) id p
              (partition-IsCoherent c source layout stores h) in
          let over_source =
            listed_iff c principal action resource filter (monolithic source) id p
              (monolithic-IsCoherent c source) in
          let all = Member-stored_iff source layout stores p h some_store in
          let whole = Member-monolithic_iff source p in
          (
            λ m.
                let (at, in_scope) = over_stores.0 m in
                over_source.1 (whole.1 (all.0 at), in_scope),
            λ m.
                let (at, in_scope) = over_source.0 m in
                over_stores.1 (all.1 (whole.0 at), in_scope),
          ))
