-- ===== src/Partition/Coherent.antt =====
-- Partitioned stores agree on what an id stands for.
use treetop_core.Prelude.{ℕ, suc, List, [], ◌∷◌, ◌++◌, ◌≡◌, refl, inl, inr, Member, Member-append}
use treetop_core.Error.{ok}
use treetop_core.Cedar.{Cedar}
use treetop_core.Store.Layout.{PolicyStoreLayout}
use treetop_core.Partition.{monolithic, scoped, all_sets, partition_policy_set}
use treetop_core.Partition.Contents.{partition-Holds}
use treetop_core.Partition.Installed.{Holds}
use treetop_core.Listing.{policies_in}
use treetop_core.Listing.Candidates.{IsCoherent}

module _ (c : Cedar) where
  open c use {Policy, PolicySet, policies}

  pub Member-policies_in :
      (stores : List PolicySet) (p : Policy)
      → Member p (policies_in c stores)
      → (i : ℕ) × Holds c stores i p
  Member-policies_in [] p h = absurd h
  Member-policies_in (s ∷ ss) p h = elim ((Member-append p (policies s) (policies_in c ss)).0 h) [
    | inl here ↦ (0, (s, refl, here))
    | inr deep ↦ let (i, held) = Member-policies_in ss p deep in (suc i, held)
  ]

  -- In what `partition_policy_set` returns, two policies with one id are one policy, in whatever
  -- stores they stand.
  pub partition-IsCoherent :
      (source : PolicySet) (layout : PolicyStoreLayout) (stores : List PolicySet)
      → partition_policy_set c source layout ≡ ok (scoped layout stores)
      → IsCoherent c (scoped layout stores)
  unfolding IsCoherent all_sets
  partition-IsCoherent source layout stores h p q at at' same =
      let (_, contents) = partition-Holds c source layout stores h in
      let (i, held) = Member-policies_in stores p at in
      let (j, held') = Member-policies_in stores q at' in
      c.ids_identify source p q ((contents i p).0 held).0 ((contents j q).0 held').0 same

  alone : (set : PolicySet) (r : Policy) → Member r (policies set ++ []) → Member r (policies set)
  alone set r m = elim ((Member-append r (policies set) []).0 m) [ inl k ↦ k | inr k ↦ absurd k ]

  -- One set is coherent by itself.
  pub monolithic-IsCoherent : (set : PolicySet) → IsCoherent c (monolithic set)
  unfolding IsCoherent all_sets
  monolithic-IsCoherent set p q at at' same =
      c.ids_identify set p q (alone set p at) (alone set q at') same
