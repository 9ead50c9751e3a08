-- ===== src/Tests/Listings.antt =====
-- Queries, scope matches and listings on a small policy set.
use treetop_core.Prelude.{String, [], ◌∷◌, map, Option, none, some, ◌≡◌, ◌↔◌, refl, Member, inl}
use treetop_core.Prelude.Sorting.{IsStrict, sort}
use treetop_core.Error.{ok, ◌>>=◌}
use treetop_core.Cedar.Syntax.{permit, PrincipalConstraint, ActionConstraint}
use treetop_core.Types.Identity.{new_user, user}
use treetop_core.Query.{
  PrincipalQuery, ResourceQuery, ActionQuery, for_user, from_principal, type_capacity, checked_add,
}
use treetop_core.Query.Agreement.{Fits, for_user-from_principal}
use treetop_core.Match.{
  PolicyMatchReason, only_permit, matches_effect, principal_match_reason, resource_match_reason,
  action_match_reason,
}
use treetop_core.Match.Scope.{InPrincipalScope, principal_match_reason_iff}
use treetop_core.Partition.{PolicySets, monolithic}
use treetop_core.Partition.Coherent.{monolithic-IsCoherent}
use treetop_core.Listing.{
  PolicyCandidates, list_policies_dispatch, match_policy, reasons_for_policy, constraint_actions,
}
use treetop_core.Listing.Candidates.{
  stored, IsInScope, listed_iff, listed-reasons, listed-IsStrict, listed-actions,
}
use treetop_core.Tests.Instance.{SamplePolicy, sample_cedar, permit_all}
use treetop_core.Tests.Orders.{Pair}

abbrev sample_principal : PrincipalQuery sample_cedar
sample_principal = record {
  uid = ("User", "alice");
  entity_type = "User";
  parents = ("Group", "admins") ∷ [];
}

abbrev sample_sets : PolicySets sample_cedar
sample_sets = monolithic (permit_all "p2" "User" ∷ permit_all "p1" "User" ∷ [])

abbrev sample_listing : PolicyCandidates sample_cedar
sample_listing =
    list_policies_dispatch sample_cedar sample_sets "alice" sample_principal none none only_permit

app-Fits_user : Fits ("App" ∷ []) "User"
unfolding Fits type_capacity checked_add
app-Fits_user = λ h. cc h

app-Fits_group : Fits ("App" ∷ []) "Group"
unfolding Fits type_capacity checked_add
app-Fits_group = λ h. cc h

for_user-from_principal_example : for_user sample_cedar "alice" ("admins" ∷ []) ("App" ∷ []) ≡ (
    new_user sample_cedar "alice" (some ("admins" ∷ [])) (some ("App" ∷ [])) >>= λ u.
    ok (from_principal sample_cedar (user u)))
for_user-from_principal_example =
    for_user-from_principal sample_cedar "alice" ("admins" ∷ []) ("App" ∷ []) app-Fits_user
      app-Fits_group

abbrev under_admins : PrincipalConstraint Pair String
under_admins = PrincipalConstraint.inside ("Group", "admins")

principal_match_reason_iff_example :
    ((r : PolicyMatchReason) × (principal_match_reason sample_cedar under_admins sample_principal
        ≡ some r))
    ↔ InPrincipalScope sample_cedar under_admins sample_principal
principal_match_reason_iff_example =
    principal_match_reason_iff sample_cedar under_admins sample_principal

abbrev sample_resource : Option (ResourceQuery sample_cedar)
sample_resource = some (record { uid = ("App::Host", "h1"); entity_type = "App::Host" })

abbrev sample_action : Option (ActionQuery sample_cedar)
sample_action = some (record { uid = ("Action", "read") })

abbrev reads : ActionConstraint Pair
reads = ActionConstraint.inside (("Action", "write") ∷ ("Action", "read") ∷ [])

listed_iff_example : Member (permit_all "p1" "User") sample_listing.policies ↔ (
    Member (permit_all "p1" "User") (stored sample_cedar sample_sets)
    × IsInScope sample_cedar sample_principal none none only_permit (permit_all "p1" "User"))
listed_iff_example =
    listed_iff sample_cedar sample_principal none none only_permit sample_sets "alice"
      (permit_all "p1" "User")
      (monolithic-IsCoherent sample_cedar (permit_all "p2" "User" ∷ permit_all "p1" "User" ∷ []))

p1_listed : Member (permit_all "p1" "User") sample_listing.policies
unfolding list_policies_dispatch sort matches_effect principal_match_reason action_match_reason
    resource_match_reason
p1_listed = inl refl

listed-reasons_example :
    reasons_for_policy "p1" sample_listing.matches
    ≡ match_policy sample_cedar sample_principal none none only_permit (permit_all "p1" "User")
listed-reasons_example =
    listed-reasons sample_cedar sample_principal none none only_permit sample_sets "alice"
      (permit_all "p1" "User") p1_listed

listed-IsStrict_example :
    IsStrict sample_cedar.id_order (map sample_cedar.policy_id sample_listing.policies)
listed-IsStrict_example =
    listed-IsStrict sample_cedar sample_principal none none only_permit sample_sets "alice"

listed-actions_example :
    IsStrict sample_cedar.uid_order sample_listing.actions
    × ((u : Pair)
        → Member u sample_listing.actions ↔ (
            (p : SamplePolicy) × Member p sample_listing.policies
            × (p.effect ≡ permit)
            × Member u (constraint_actions sample_cedar p.action)))
listed-actions_example =
    listed-actions sample_cedar sample_principal none none only_permit sample_sets "alice"
