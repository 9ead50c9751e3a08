-- ===== src/Listing.antt =====
-- `PolicyCandidates` of src/types/user_policies.rs, and the listings of src/engine.rs.
pub mod Collect
pub mod Actions
pub mod Candidates
pub mod Partitioned
pub mod Reasons
use treetop_core.Prelude.{
  ℕ, String, List, [], ◌∷◌, ◌++◌, map, Option, none, some, Bool, true, false, not, any, contains,
  ◌==◌, nat_eq, string_eq, leb, ◌≡◌, ◌↔◌, Eq, if◌then◌else◌, keep,
}
use treetop_core.Prelude.Sorting.{sort, dedup, Order}
use treetop_core.Error.{Result, ok, ◌>>=◌}
use treetop_core.Cedar.{Cedar}
use treetop_core.Cedar.Syntax.{Effect, permit, forbid, ActionConstraint}
use treetop_core.Types.Resource.{Resource, Request}
use treetop_core.Query.{
  PrincipalQuery, ActionQuery, ResourceQuery, from_principal, from_resource, from_action, for_user,
  for_group,
}
use treetop_core.Match.{
  PolicyEffectFilter, PolicyMatchReason, matches_effect, principal_match_reason,
  action_match_reason, resource_match_reason,
}
use treetop_core.Match
use treetop_core.Partition.{PolicySets, monolithic, scoped, all_sets}

-- The derived order: constructors in the order in which they are declared.
abbrev pub reason_rank : PolicyMatchReason → ℕ
reason_rank Match.principal_eq = 0
reason_rank Match.principal_in = 1
reason_rank Match.principal_any = 2
reason_rank Match.principal_is = 3
reason_rank Match.principal_is_in = 4
reason_rank Match.action_eq = 5
reason_rank Match.action_in = 6
reason_rank Match.action_any = 7
reason_rank Match.resource_eq = 8
reason_rank Match.resource_in = 9
reason_rank Match.resource_any = 10
reason_rank Match.resource_is = 11
reason_rank Match.resource_is_in = 12

abbrev pub reason_le : PolicyMatchReason → PolicyMatchReason → Bool
reason_le a b = leb (reason_rank a) (reason_rank b)

-- `Vec::dedup` on reasons, whose ranks tell them apart.
unfoldable pub dedup_reasons : List PolicyMatchReason → List PolicyMatchReason
dedup_reasons [] = []
dedup_reasons (a ∷ []) = a ∷ []
dedup_reasons (a ∷ b ∷ rs) =
    let rest = dedup_reasons (b ∷ rs) in if reason_rank a == reason_rank b then rest else a ∷ rest

abbrev pub push_reason : List PolicyMatchReason → Option PolicyMatchReason → List PolicyMatchReason
push_reason rs none = rs
push_reason rs (some r) = rs ++ r ∷ []

pub record PolicyMatch : Type 0 where
  pub cedar_id : String
  pub reasons : List PolicyMatchReason

-- `reasons_for_policy`
unfoldable pub reasons_for_policy : String → List PolicyMatch → Option (List PolicyMatchReason)
reasons_for_policy id [] = none
reasons_for_policy id (m ∷ ms) =
    if m.cedar_id == id then some m.reasons else reasons_for_policy id ms

-- The three `let … else { continue }`, and the reasons that are pushed.
abbrev pub all_reasons :
    Option PolicyMatchReason
    → Option (Option PolicyMatchReason)
    → Option (Option PolicyMatchReason)
    → Option (List PolicyMatchReason)
all_reasons none action resource = none
all_reasons (some principal) none resource = none
all_reasons (some principal) (some action) none = none
all_reasons (some principal) (some action) (some resource) =
    some (push_reason (push_reason (principal ∷ []) action) resource)

module _ (c : Cedar) where
  open c use {
    Uid, uid_eq, uid_order, id_order, Policy, policy_id, effect, principal_constraint,
    action_constraint, resource_constraint, PolicySet,
  }

  pub record PolicyCandidates : Type 0 where
    pub user : String
    pub policies : List Policy
    pub actions : List Uid
    pub matches : List PolicyMatch

  -- A policy with its reasons.
  abbrev pub Matched : Type 0
  Matched = Policy × List PolicyMatchReason

  abbrev pub constraint_actions : ActionConstraint Uid → List Uid
  constraint_actions ActionConstraint.any = []
  constraint_actions (ActionConstraint.eq action) = action ∷ []
  constraint_actions (ActionConstraint.inside actions) = actions

  -- The loop that collects the actions of permit policies.
  unfoldable pub permitted_actions : List Policy → List Uid
  permitted_actions [] = []
  permitted_actions (p ∷ ps) =
      let rest = permitted_actions ps in
      elim (effect p) [ permit ↦ constraint_actions (action_constraint p) ++ rest | forbid ↦ rest ]

  unfoldable pub new_with_matches_internal :
      String → List Policy → List PolicyMatch → PolicyCandidates
  new_with_matches_internal user policies matches = record {
    user = user;
    policies = policies;
    actions = dedup ⦃e = uid_eq⦄ (sort uid_order.le (permitted_actions policies));
    matches = matches;
  }

  abbrev pub matched_le : Matched → Matched → Bool
  matched_le a b = id_order.le (policy_id a.0) (policy_id b.0)

  abbrev pub policy_match : Matched → PolicyMatch
  policy_match m = record { cedar_id = policy_id m.0; reasons = dedup_reasons (sort reason_le m.1) }

  unfoldable pub new_with_matches : String → List Matched → PolicyCandidates
  unfolding new_with_matches_internal
  new_with_matches user matches =
      let sorted = sort matched_le matches in
      new_with_matches_internal user (map (λ (m : Matched). m.0) sorted) (map policy_match sorted)

  -- `resource.map(ResourceQuery::from_resource)`
  abbrev pub resource_query : Option (Resource c) → Option (ResourceQuery c)
  resource_query none = none
  resource_query (some r) = some (from_resource c r)

  -- The body of the loop, past the test on the ids: the reasons of a policy that matches.
  unfoldable pub match_policy :
      PrincipalQuery c
      → Option (ActionQuery c)
      → Option (Resource c)
      → PolicyEffectFilter
      → Policy
      → Option (List PolicyMatchReason)
  match_policy principal action resource filter p =
      if not (matches_effect (effect p) filter)
      then none
      else all_reasons (principal_match_reason c (principal_constraint p) principal)
          (action_match_reason c (action_constraint p) action)
          (resource_match_reason c (resource_constraint p) (resource_query resource))

  abbrev pub prepend_match : Policy → Option (List PolicyMatchReason) → List Matched → List Matched
  prepend_match p none rest = rest
  prepend_match p (some reasons) rest = (p, reasons) ∷ rest

  -- The loop over the policies of all stores; `seen` holds the ids that were met, matching or not.
  unfoldable pub collect_matches :
      (Policy → Option (List PolicyMatchReason)) → List String → List Policy → List Matched
  collect_matches test seen [] = []
  collect_matches test seen (p ∷ ps) =
      let rest = collect_matches test (policy_id p ∷ seen) ps in
      let same = collect_matches test seen ps in
      if contains (policy_id p) seen then same else prepend_match p (test p) rest

  -- `iter().flat_map(PolicySet::policies)`
  abbrev pub policies_in : List PolicySet → List Policy
  policies_in [] = []
  policies_in (s ∷ ss) = c.policies s ++ policies_in ss

  unfoldable pub list_policies_dispatch :
      PolicySets c
      → String
      → PrincipalQuery c
      → Option (ActionQuery c)
      → Option (Resource c)
      → PolicyEffectFilter
      → PolicyCandidates
  unfolding collect_matches all_sets new_with_matches match_policy
  list_policies_dispatch sets principal_id principal action resource filter =
      new_with_matches principal_id (
        collect_matches (match_policy principal action resource filter) []
          (policies_in (all_sets c sets)))

  -- The text of the request's principal is the crate's `Display`, an argument.
  unfoldable pub list_policies_with_effect :
      PolicySets c → String → Request c → PolicyEffectFilter → PolicyCandidates
  list_policies_with_effect sets principal_text request filter =
      list_policies_dispatch sets principal_text (from_principal c request.principal)
        (some (from_action c request.action)) (some request.resource) filter

  unfoldable pub list_policies_for_user_with_resource_and_effect :
      PolicySets c
      → String
      → List String
      → List String
      → Option (Resource c)
      → PolicyEffectFilter
      → Result PolicyCandidates
  list_policies_for_user_with_resource_and_effect sets id groups namespace resource filter = do
    principal ← for_user c id groups namespace
    ok (list_policies_dispatch sets id principal none resource filter)

  unfoldable pub list_policies_for_group_with_resource_and_effect :
      PolicySets c
      → String
      → List String
      → Option (Resource c)
      → PolicyEffectFilter
      → Result PolicyCandidates
  list_policies_for_group_with_resource_and_effect sets id namespace resource filter = do
    principal ← for_group c id namespace
    ok (list_policies_dispatch sets id principal none resource filter)

  -- The loop of `PolicyEngine::policies` on a partitioned state: first of each id.
  unfoldable pub distinct_policies : List String → List Policy → List Policy
  distinct_policies seen [] = []
  distinct_policies seen (p ∷ ps) =
      let rest = distinct_policies (policy_id p ∷ seen) ps in
      let same = distinct_policies seen ps in if contains (policy_id p) seen then same else p ∷ rest

  unfoldable pub all_policies : PolicySets c → List Policy
  all_policies (monolithic set) = c.policies set
  all_policies (scoped layout stores) =
      sort (λ p q. id_order.le (policy_id p) (policy_id q))
        (distinct_policies [] (policies_in stores))
