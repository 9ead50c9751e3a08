-- ===== src/Listing/Candidates.antt =====
-- What the candidate policies of src/types/user_policies.rs are.
use treetop_core.Prelude.{
  String, List, [], ◌∷◌, map, Option, some, true, ◌≡◌, ◌≢◌, refl, sym, ap, ◌∙◌, subst, inl, inr,
  ◌↔◌, Member,
}
use treetop_core.Prelude.Sorting.{
  sort, dedup, Pairwise, sort-Pairwise, IsSorted, IsStrict, sort-IsSorted, dedup-IsStrict,
  Member-sort, Member-dedup,
}
use treetop_core.Cedar.{Cedar}
use treetop_core.Cedar.Syntax.{permit}
use treetop_core.Types.Resource.{Resource}
use treetop_core.Query.{PrincipalQuery, ActionQuery}
use treetop_core.Match.{PolicyEffectFilter, PolicyMatchReason, matches_effect}
use treetop_core.Match.Scope.{
  InPrincipalScope, InActionScope, InResourceScope, principal_match_reason_iff,
  action_match_reason_iff, resource_match_reason_iff,
}
use treetop_core.Partition.{PolicySets, all_sets}
use treetop_core.Listing.{
  Matched, matched_le, match_policy, collect_matches, policies_in, list_policies_dispatch,
  resource_query, new_with_matches, new_with_matches_internal, permitted_actions,
  constraint_actions, reasons_for_policy, policy_match, push_reason, PolicyCandidates,
}
use treetop_core.Listing.Actions.{Member-permitted_actions}
use treetop_core.Listing.Collect.{
  collect_matches_sound, collect_matches_complete, collect_matches-Pairwise,
}
use treetop_core.Listing.Reasons.{match_policy-eq-some, match_policy-keeps, reasons_for_policy-map}

Member-map :
    {A B : Type 0} (f : A → B) (b : B) (xs : List A)
    → Member b (map f xs) ↔ ((a : A) × Member a xs × (b ≡ f a))
Member-map f b [] = (λ h. absurd h, λ (a, at, e). absurd at)
Member-map f b (x ∷ xs) =
    let rest = Member-map f b xs in
    (
      λ h. elim h [
        | inl e ↦ (x, inl refl, e)
        | inr k ↦ let (a, at, e) = rest.0 k in (a, inr at, e)
      ],
      λ (a, at, e). elim at [ inl own ↦ inl (e ∙ ap f own) | inr deep ↦ inr (rest.1 (a, deep, e)) ],
    )

module _ (c : Cedar) where
  open c use {
    Uid, uid_order, Policy, policy_id, effect, principal_constraint, action_constraint,
    resource_constraint, id_order,
  }

  -- The policies of all stores.
  abbrev pub stored : PolicySets c → List Policy
  stored sets = policies_in c (all_sets c sets)

  -- No two different policies of the stores share an id.
  unfoldable pub IsCoherent : PolicySets c → Type 0
  unfolding all_sets
  IsCoherent sets =
      (p q : Policy)
      → Member p (stored sets)
      → Member q (stored sets)
      → policy_id p ≡ policy_id q
      → p ≡ q

  -- The scope of a policy, and the effect asked for; `when` and `unless` clauses are not read.
  unfoldable pub IsInScope :
      PrincipalQuery c
      → Option (ActionQuery c)
      → Option (Resource c)
      → PolicyEffectFilter
      → Policy
      → Type 0
  unfolding matches_effect InPrincipalScope InActionScope InResourceScope
  IsInScope principal action resource filter p =
      (matches_effect (effect p) filter ≡ true)
      × InPrincipalScope c (principal_constraint p) principal
      × InActionScope c (action_constraint p) action
      × InResourceScope c (resource_constraint p) (resource_query c resource)

  module _ (principal : PrincipalQuery c) (action : Option (ActionQuery c))
      (resource : Option (Resource c)) (filter : PolicyEffectFilter) where
    match_policy_iff :
        (p : Policy)
        → ((rs : List PolicyMatchReason) × (match_policy c principal action resource filter p
              ≡ some rs))
          ↔ IsInScope principal action resource filter p
    unfolding IsInScope match_policy
    match_policy_iff p =
        let of_principal = principal_match_reason_iff c (principal_constraint p) principal in
        let of_action = action_match_reason_iff c (action_constraint p) action in
        let of_resource =
          resource_match_reason_iff c (resource_constraint p) (resource_query c resource) in
        (
          λ (rs, h).
              let (r, a, o, kept, e1, e2, e3, _) =
                match_policy-eq-some c principal action resource filter p rs h in
              (kept, of_principal.0 (r, e1), of_action.0 (a, e2), of_resource.0 (o, e3)),
          λ (kept, in_principal, in_action, in_resource).
              let (r, e1) = of_principal.1 in_principal in
              let (a, e2) = of_action.1 in_action in
              let (o, e3) = of_resource.1 in_resource in
              (push_reason (push_reason (r ∷ []) a) o, rw (match_policy, kept, e1, e2, e3) refl),
        )

    abbrev collected : PolicySets c → List (Matched c)
    collected sets =
        collect_matches c (match_policy c principal action resource filter) [] (stored sets)

    abbrev listing : PolicySets c → String → PolicyCandidates c
    listing sets id = list_policies_dispatch c sets id principal action resource filter

    listing-policies :
        (sets : PolicySets c) (id : String)
        → (listing sets id).policies
          ≡ map (λ (m : Matched c). m.0) (sort (matched_le c) (collected sets))
    unfolding list_policies_dispatch new_with_matches new_with_matches_internal
    listing-policies sets id = refl

    listing-matches :
        (sets : PolicySets c) (id : String)
        → (listing sets id).matches ≡ map (policy_match c) (sort (matched_le c) (collected sets))
    unfolding list_policies_dispatch new_with_matches new_with_matches_internal
    listing-matches sets id = refl

    listing-actions :
        (sets : PolicySets c) (id : String)
        → (listing sets id).actions
          ≡ dedup ⦃e = c.uid_eq⦄
              (sort uid_order.le (permitted_actions c (listing sets id).policies))
    unfolding list_policies_dispatch new_with_matches new_with_matches_internal
    listing-actions sets id = refl

    -- The listing holds exactly the stored policies whose effect and scope match, once each, if ids
    -- tell the stored policies apart.
    pub listed_iff :
        (sets : PolicySets c) (id : String) (p : Policy)
        → IsCoherent sets
        → Member p (listing sets id).policies
          ↔ (Member p (stored sets) × IsInScope principal action resource filter p)
    unfolding IsCoherent
    listed_iff sets id p coherent = rw (listing-policies sets id) (
      λ h.
          let (m, at, e) = (Member-map (λ (m : Matched c). m.0) p _).0 h in
          let (stored_at, passed, _) =
            collect_matches_sound c (match_policy c principal action resource filter) []
              (stored sets) m ((Member-sort (matched_le c) m _).0 at) in
          subst (λ q. Member q (stored sets) × IsInScope principal action resource filter q) (sym e)
            (stored_at, (match_policy_iff m.0).0 (m.1, passed)),
      λ (at, in_scope).
          let (rs, passed) = (match_policy_iff p).1 in_scope in
          (Member-map (λ (m : Matched c). m.0) p _).1 (
            (p, rs),
            (Member-sort (matched_le c) (p, rs) _).1 (
                collect_matches_complete c (match_policy c principal action resource filter) []
                  (stored sets) (p, rs) (λ q b e. coherent p q at b e) at passed (λ b. b)),
            refl,
          ),
    )

    -- A listed policy comes with the reasons for which it matched, in the order principal, action,
    -- resource: sorting and removing duplicates change nothing.
    pub listed-reasons :
        (sets : PolicySets c) (id : String) (p : Policy)
        → Member p (listing sets id).policies
        → reasons_for_policy (policy_id p) (listing sets id).matches
          ≡ match_policy c principal action resource filter p
    listed-reasons sets id p h =
        let h' = subst (Member p) (listing-policies sets id) h in
        let (m, at, e) = (Member-map (λ (m : Matched c). m.0) p _).0 h' in
        let (_, passed, _) =
          collect_matches_sound c (match_policy c principal action resource filter) [] (stored sets)
            m ((Member-sort (matched_le c) m _).0 at) in
        let distinct =
          sort-Pairwise (λ (a b : Matched c). policy_id a.0 ≢ policy_id b.0) (matched_le c)
            (collected sets) (λ a b k l. k (sym l))
            (collect_matches-Pairwise c (match_policy c principal action resource filter) []
              (stored sets)) in
        rw (listing-matches sets id, e)
          (reasons_for_policy-map c _ m distinct at
            ∙ ap some (match_policy-keeps c principal action resource filter m.0 m.1 passed)
            ∙ sym passed)

    sorted-IsStrict :
        (ms : List (Matched c))
        → IsSorted (matched_le c) ms
        → Pairwise (λ (a b : Matched c). policy_id a.0 ≢ policy_id b.0) ms
        → IsStrict id_order (map policy_id (map (λ (m : Matched c). m.0) ms))
    sorted-IsStrict [] sorted distinct = tt
    sorted-IsStrict (m ∷ ms) (low, sorted) (own, distinct) = (
      λ t at.
          let (q, at_q, e) = (Member-map policy_id t (map (λ (m : Matched c). m.0) ms)).0 at in
          let (n, at_n, e') = (Member-map (λ (m : Matched c). m.0) q ms).0 at_q in
          let same : policy_id n.0 ≡ t = sym (e ∙ ap policy_id e') in
          (
            subst (λ x. id_order.le (policy_id m.0) x ≡ true) same (low n at_n),
            λ f. own n at_n (f ∙ sym same),
          ),
      sorted-IsStrict ms sorted distinct,
    )

    -- The listed policies stand in the strict order of their ids, so that no id is listed twice.
    pub listed-IsStrict :
        (sets : PolicySets c) (id : String)
        → IsStrict id_order (map policy_id (listing sets id).policies)
    listed-IsStrict sets id = rw (listing-policies sets id) (
        sorted-IsStrict (sort (matched_le c) (collected sets))
          (sort-IsSorted (matched_le c) (λ a b. id_order.le_total (policy_id a.0) (policy_id b.0))
            (λ a b d. id_order.le_trans (policy_id a.0) (policy_id b.0) (policy_id d.0))
            (collected sets))
          (sort-Pairwise (λ (a b : Matched c). policy_id a.0 ≢ policy_id b.0) (matched_le c)
            (collected sets) (λ a b k l. k (sym l))
            (collect_matches-Pairwise c (match_policy c principal action resource filter) []
              (stored sets))))

    -- The candidate actions are the actions that the listed permit policies name, in strict order.
    pub listed-actions :
        (sets : PolicySets c) (id : String)
        → IsStrict uid_order (listing sets id).actions
          × ((u : Uid)
              → Member u (listing sets id).actions ↔ (
                  (p : Policy) × Member p (listing sets id).policies
                  × (effect p ≡ permit)
                  × Member u (constraint_actions c (action_constraint p))))
    listed-actions sets id =
        let found = permitted_actions c (listing sets id).policies in
        rw (listing-actions sets id) (
          dedup-IsStrict ⦃e = c.uid_eq⦄ uid_order (sort uid_order.le found)
              (sort-IsSorted uid_order.le uid_order.le_total uid_order.le_trans found),
          λ u.
              let kept = Member-dedup ⦃e = c.uid_eq⦄ u (sort uid_order.le found) in
              let sorted = Member-sort uid_order.le u found in
              let named = Member-permitted_actions c (listing sets id).policies u in
              (λ h. named.0 (sorted.0 (kept.0 h)), λ h. kept.1 (sorted.1 (named.1 h))),
        )
