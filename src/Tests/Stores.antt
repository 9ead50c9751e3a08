-- ===== src/Tests/Stores.antt =====
-- Two stores, and policies partitioned between them.
use treetop_core.Prelude.{
  ℕ, List, [], ◌∷◌, none, some, ◌≡◌, ◌≢◌, ◌↔◌, ◌⊎◌, inl, inr, refl, Member, length,
}
use treetop_core.Error.{ok}
use treetop_core.Names.{split_name}
use treetop_core.Cedar.Syntax.{Body, PrincipalConstraint, ActionConstraint, ResourceConstraint}
use treetop_core.Types.Identity.{Action}
use treetop_core.Types.Resource.{Resource}
use treetop_core.Store.Router.{default, insert_node, resolve}
use treetop_core.Store.Layout.{
  PolicyStoreConfig, PolicyStoreLayout, new_layout, resolve_request, resolve_qualified_name,
}
use treetop_core.Store.Layout.Disjoint.{AreDisjoint, HaveDistinctIds, new_layout_iff}
use treetop_core.Store.Layout.Ownership.{Owns, IsBuilt, new_layout-IsBuilt, resolve_request_iff}
use treetop_core.Store.Assignment.{
  references, policy_candidates, explicit_policy_store, insert_names, insert_name_candidate,
  insert_index,
}
use treetop_core.Store.Assignment.Candidates.{MentionedIn}
use treetop_core.Store.Assignment.Exact.{IsAtMostOne, policy_candidates_iff}
use treetop_core.Store.Assignment.Occurs.{InResource, in_resource}
use treetop_core.Partition.{
  monolithic, scoped, partition_policy_set, assign_all, target_indexes, targets_of,
  registered_global, local_targets, install,
}
use treetop_core.Partition.Contents.{IsAssigned, partition-Holds}
use treetop_core.Partition.Installed.{Holds}
use treetop_core.Partition.Targets.{IsGlobal, IsAnnotated}
use treetop_core.Partition.Isolation.{partition_isolated, partition_complete}
use treetop_core.Query.{PrincipalQuery}
use treetop_core.Match.{only_permit}
use treetop_core.Listing.{list_policies_dispatch}
use treetop_core.Listing.Partitioned.{partition-listing}
use treetop_core.Tests.Instance.{SamplePolicy, sample_cedar, permit_all}

abbrev pub sample_stores : List PolicyStoreConfig
sample_stores =
    record { id = "web"; namespace = "App" }
    ∷ record { id = "names"; namespace = "Infra::Dns" }
    ∷ []

abbrev pub sample_layout : PolicyStoreLayout
sample_layout = record {
  stores = sample_stores;
  global_policy_ids = [];
  namespace_router =
      (insert_node ("Infra" ∷ "Dns" ∷ []) 1 (insert_node ("App" ∷ []) 0 default).1).1;
}

pub sample_layout-new : new_layout sample_stores ≡ ok sample_layout
unfolding new_layout insert_node split_name
sample_layout-new = refl

pub sample_layout-IsBuilt : IsBuilt sample_layout
sample_layout-IsBuilt = new_layout-IsBuilt sample_stores sample_layout sample_layout-new

abbrev host_policy : SamplePolicy
host_policy = permit_all "p1" "App::Host"

abbrev record_policy : SamplePolicy
record_policy = permit_all "p2" "Infra::Dns::Record"

abbrev sample_source : List SamplePolicy
sample_source = host_policy ∷ record_policy ∷ []

abbrev sample_partition : List (List SamplePolicy)
sample_partition = (host_policy ∷ []) ∷ (record_policy ∷ []) ∷ []

sample_partition-new :
    partition_policy_set sample_cedar sample_source sample_layout
    ≡ ok (scoped sample_layout sample_partition)
unfolding partition_policy_set policy_candidates assign_all target_indexes explicit_policy_store
    targets_of registered_global insert_names references insert_name_candidate
    resolve_qualified_name resolve split_name insert_node insert_index local_targets install
sample_partition-new = refl

abbrev sample_action : Action sample_cedar
sample_action = record { id = "read"; namespace = "App" ∷ []; uid = ("App::Action", "read") }

abbrev sample_host : Resource sample_cedar
sample_host = record { kind = "App::Host"; id = "h1"; attrs = λ k. none; uid = ("App::Host", "h1") }

new_layout_iff_example :
    ((l : PolicyStoreLayout) × (new_layout sample_stores ≡ ok l))
    ↔ ((sample_stores ≢ []) × HaveDistinctIds sample_stores × AreDisjoint sample_stores)
new_layout_iff_example = new_layout_iff sample_stores

resolve_request_iff_example :
    (resolve_request sample_cedar sample_layout sample_action sample_host ≡ ok 0) ↔ (
      (Owns sample_stores 0 ("App" ∷ []) ⊎ Owns sample_stores 0 (split_name "App::Host"))
      × ((j : ℕ)
          → Owns sample_stores j ("App" ∷ []) ⊎ Owns sample_stores j (split_name "App::Host")
          → j ≡ 0))
resolve_request_iff_example =
    resolve_request_iff sample_cedar sample_layout sample_action sample_host 0 sample_layout-IsBuilt

sample_candidates : policy_candidates sample_cedar sample_layout host_policy ≡ ok (0 ∷ [])
unfolding policy_candidates insert_names references insert_name_candidate resolve_qualified_name
    resolve split_name insert_node insert_index
sample_candidates = refl

policy_candidates_iff_example :
    (policy_candidates sample_cedar sample_layout host_policy ≡ ok (0 ∷ [])) ↔ (
      (body : Body) × (sample_cedar.to_pst host_policy ≡ some body)
      × IsAtMostOne (0 ∷ [])
      × ((j : ℕ) → Member j (0 ∷ []) ↔ MentionedIn sample_layout.namespace_router body j))
policy_candidates_iff_example =
    policy_candidates_iff sample_cedar sample_layout host_policy (0 ∷ [])

partition-Holds_example :
    (length sample_partition ≡ length sample_stores)
    × ((i : ℕ) (q : SamplePolicy)
        → Holds sample_cedar sample_partition i q ↔ (
            Member q (sample_cedar.policies sample_source)
            × IsAssigned sample_cedar sample_layout q i))
partition-Holds_example =
    partition-Holds sample_cedar sample_source sample_layout sample_partition sample_partition-new

partition_isolated_example :
    IsGlobal sample_cedar sample_layout record_policy
    ⊎ ((body : Body) × (record_policy.body ≡ some body)
        × ((j : ℕ) → MentionedIn sample_layout.namespace_router body j → j ≡ 1)
        × (MentionedIn sample_layout.namespace_router body 1
            ⊎ IsAnnotated sample_cedar sample_layout record_policy 1))
partition_isolated_example =
    partition_isolated sample_cedar sample_source sample_layout sample_partition 1 record_policy
      sample_partition-new (record_policy ∷ [], refl, inl refl)

abbrev record_body : Body
record_body = record {
  principal = PrincipalConstraint.any;
  action = ActionConstraint.any;
  resource = ResourceConstraint.is "Infra::Dns::Record";
  clauses = [];
}

record_body-MentionedIn : MentionedIn sample_layout.namespace_router record_body 1
unfolding insert_node resolve_qualified_name resolve split_name
record_body-MentionedIn = ("Infra::Dns::Record", in_resource InResource.of_type, refl)

partition_complete_example : Holds sample_cedar sample_partition 1 record_policy
partition_complete_example =
    partition_complete sample_cedar sample_source sample_layout sample_partition 1 record_policy
      record_body sample_layout-IsBuilt sample_partition-new (inr (inl refl)) refl
      record_body-MentionedIn

-- Two stores.
sample_stores-nonempty : sample_stores ≢ []
sample_stores-nonempty h = cc h

abbrev every_principal : PrincipalQuery sample_cedar
every_principal = record { uid = ("User", "alice"); entity_type = "User"; parents = [] }

partition-listing_example :
    let over_stores =
      list_policies_dispatch sample_cedar
        (scoped sample_layout sample_partition)
        "alice"
        every_principal
        none
        none
        only_permit in
    let over_source =
      list_policies_dispatch sample_cedar
        (monolithic sample_source)
        "alice"
        every_principal
        none
        none
        only_permit in
    over_stores.policies ≡ over_source.policies
partition-listing_example =
    partition-listing sample_cedar sample_source sample_layout sample_partition every_principal none
      none only_permit "alice" sample_partition-new sample_stores-nonempty
