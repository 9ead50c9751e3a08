-- ===== src/Listing/Reasons.antt =====
-- The reasons that a listing gives for a policy.
use treetop_core.Prelude.{
  ℕ, ◌<◌, ◌≤◌, List, [], ◌∷◌, map, Option, none, some, Bool, true, false, ◌≡◌, refl, sym, ap, subst,
  inl, inr, arith, Bool-cases, string_eq, eq_iff, beq_ne, Member, ◌≢◌,
}
use treetop_core.Prelude.Sorting.{sort, insert_sorted, Pairwise}
use treetop_core.Cedar.{Cedar}
use treetop_core.Cedar.Syntax.{PrincipalConstraint, ActionConstraint, ResourceConstraint}
use treetop_core.Types.Resource.{Resource}
use treetop_core.Query.{PrincipalQuery, ActionQuery, ResourceQuery}
use treetop_core.Match.{
  PolicyEffectFilter, PolicyMatchReason, when, matches_effect, principal_match_reason,
  action_match_reason, resource_match_reason,
}
use treetop_core.Listing.{
  reason_rank, reason_le, dedup_reasons, push_reason, match_policy, policy_match, Matched,
  reasons_for_policy, all_reasons, resource_query,
}

-- Reasons in strictly rising order are left alone.
keeps_one : (a : PolicyMatchReason) → dedup_reasons (sort reason_le (a ∷ [])) ≡ a ∷ []
unfolding dedup_reasons sort insert_sorted
keeps_one a = refl

keeps_two :
    (a b : PolicyMatchReason)
    → reason_rank a < reason_rank b
    → dedup_reasons (sort reason_le (a ∷ b ∷ [])) ≡ a ∷ b ∷ []
unfolding dedup_reasons sort insert_sorted
keeps_two a b h = ground arith

keeps_three :
    (a b d : PolicyMatchReason)
    → reason_rank a < reason_rank b
    → reason_rank b < reason_rank d
    → dedup_reasons (sort reason_le (a ∷ b ∷ d ∷ [])) ≡ a ∷ b ∷ d ∷ []
unfolding dedup_reasons sort insert_sorted
keeps_three a b d h k = ground arith

when-some {ℓ} : {A : Type ℓ} (b : Bool) {a r : A} → when b a ≡ some r → r ≡ a
when-some true h = cc h
when-some false h = cc h

module _ (c : Cedar) where
  open c use {
    TypeName, Uid, Policy, policy_id, effect, principal_constraint, action_constraint,
    resource_constraint,
  }

  principal_rank :
      (k : PrincipalConstraint Uid TypeName) (p : PrincipalQuery c) (r : PolicyMatchReason)
      → principal_match_reason c k p ≡ some r
      → reason_rank r < 5
  unfolding principal_match_reason
  principal_rank PrincipalConstraint.any p r h =
      subst (λ s. reason_rank s < 5) {x = PolicyMatchReason.principal_any} (cc h) (omega arith)
  principal_rank (PrincipalConstraint.eq uid) p r h =
      subst (λ s. reason_rank s < 5) (sym (when-some _ h)) (omega arith)
  principal_rank (PrincipalConstraint.inside uid) p r h =
      subst (λ s. reason_rank s < 5) (sym (when-some _ h)) (omega arith)
  principal_rank (PrincipalConstraint.is t) p r h =
      subst (λ s. reason_rank s < 5) (sym (when-some _ h)) (omega arith)
  principal_rank (PrincipalConstraint.is_in t uid) p r h =
      subst (λ s. reason_rank s < 5) (sym (when-some _ h)) (omega arith)

  -- A reason, if there is one, with a rank between the bounds.
  abbrev IsBetween : ℕ → ℕ → Option PolicyMatchReason → Type 0
  IsBetween low high none = Unit
  IsBetween low high (some r) = (low ≤ reason_rank r) × (reason_rank r < high)

  action_rank :
      (k : ActionConstraint Uid) (a : Option (ActionQuery c)) (o : Option PolicyMatchReason)
      → action_match_reason c k a ≡ some o
      → IsBetween 5 8 o
  unfolding action_match_reason
  action_rank k none o h = subst (IsBetween 5 8) {x = none} (cc h) tt
  action_rank ActionConstraint.any (some a) o h =
      subst (IsBetween 5 8) {x = some PolicyMatchReason.action_any} (cc h)
        (omega arith, omega arith)
  action_rank (ActionConstraint.eq uid) (some a) o h =
      subst (IsBetween 5 8) (sym (when-some _ h)) (omega arith, omega arith)
  action_rank (ActionConstraint.inside uids) (some a) o h =
      subst (IsBetween 5 8) (sym (when-some _ h)) (omega arith, omega arith)

  resource_rank :
      (k : ResourceConstraint Uid TypeName) (a : Option (ResourceQuery c))
      (o : Option PolicyMatchReason)
      → resource_match_reason c k a ≡ some o
      → IsBetween 8 13 o
  unfolding resource_match_reason
  resource_rank k none o h = subst (IsBetween 8 13) {x = none} (cc h) tt
  resource_rank ResourceConstraint.any (some a) o h =
      subst (IsBetween 8 13) {x = some PolicyMatchReason.resource_any} (cc h)
        (omega arith, omega arith)
  resource_rank (ResourceConstraint.eq uid) (some a) o h =
      subst (IsBetween 8 13) (sym (when-some _ h)) (omega arith, omega arith)
  resource_rank (ResourceConstraint.inside uid) (some a) o h =
      subst (IsBetween 8 13) (sym (when-some _ h)) (omega arith, omega arith)
  resource_rank (ResourceConstraint.is t) (some a) o h =
      subst (IsBetween 8 13) (sym (when-some _ h)) (omega arith, omega arith)
  resource_rank (ResourceConstraint.is_in t uid) (some a) o h =
      subst (IsBetween 8 13) (sym (when-some _ h)) (omega arith, omega arith)

  pushed_keeps :
      (r : PolicyMatchReason) (a o : Option PolicyMatchReason)
      → reason_rank r < 5
      → IsBetween 5 8 a
      → IsBetween 8 13 o
      → dedup_reasons (sort reason_le (push_reason (push_reason (r ∷ []) a) o))
        ≡ push_reason (push_reason (r ∷ []) a) o
  pushed_keeps r none none h k l = keeps_one r
  pushed_keeps r none (some d) h k l = keeps_two r d (omega arith)
  pushed_keeps r (some b) none h k l = keeps_two r b (omega arith)
  pushed_keeps r (some b) (some d) h k l = keeps_three r b d (omega arith) (omega arith)

  all_reasons-eq-some :
      (principal : Option PolicyMatchReason) (action resource : Option (Option PolicyMatchReason))
      {rs : List PolicyMatchReason}
      → all_reasons principal action resource ≡ some rs
      → (r : PolicyMatchReason) × (a : Option PolicyMatchReason) × (o : Option PolicyMatchReason)
        × (principal ≡ some r)
        × (action ≡ some a)
        × (resource ≡ some o)
        × (push_reason (push_reason (r ∷ []) a) o ≡ rs)
  all_reasons-eq-some none action resource h = cc h
  all_reasons-eq-some (some r) none resource h = cc h
  all_reasons-eq-some (some r) (some a) none h = cc h
  all_reasons-eq-some (some r) (some a) (some o) h = (r, a, o, refl, refl, refl, cc h)

  -- The three reasons of a policy that matches.
  pub match_policy-eq-some :
      (principal : PrincipalQuery c) (action : Option (ActionQuery c))
      (resource : Option (Resource c)) (filter : PolicyEffectFilter) (p : Policy)
      (rs : List PolicyMatchReason)
      → match_policy c principal action resource filter p ≡ some rs
      → (r : PolicyMatchReason) × (a : Option PolicyMatchReason) × (o : Option PolicyMatchReason)
        × (matches_effect (effect p) filter ≡ true)
        × (principal_match_reason c (principal_constraint p) principal ≡ some r)
        × (action_match_reason c (action_constraint p) action ≡ some a)
        × (resource_match_reason c (resource_constraint p) (resource_query c resource) ≡ some o)
        × (push_reason (push_reason (r ∷ []) a) o ≡ rs)
  unfolding match_policy
  match_policy-eq-some principal action resource filter p rs h =
      elim (Bool-cases (matches_effect (effect p) filter)) [
        | inl kept ↦
            let (r, a, o, e1, e2, e3, e4) =
              all_reasons-eq-some (principal_match_reason c (principal_constraint p) principal)
                (action_match_reason c (action_constraint p) action)
                (resource_match_reason c (resource_constraint p) (resource_query c resource))
                (ground arith) in
            (r, a, o, kept, e1, e2, e3, e4)
        | inr dropped ↦ absurd (ground arith)
      ]

  -- Sorting and deduplication leave the reasons of a match as they were pushed.
  pub match_policy-keeps :
      (principal : PrincipalQuery c) (action : Option (ActionQuery c))
      (resource : Option (Resource c)) (filter : PolicyEffectFilter) (p : Policy)
      (rs : List PolicyMatchReason)
      → match_policy c principal action resource filter p ≡ some rs
      → dedup_reasons (sort reason_le rs) ≡ rs
  match_policy-keeps principal action resource filter p rs h =
      let (r, a, o, _, e1, e2, e3, e4) =
        match_policy-eq-some principal action resource filter p rs h in
      subst (λ x. dedup_reasons (sort reason_le x) ≡ x) e4
        (pushed_keeps r a o (principal_rank (principal_constraint p) principal r e1)
          (action_rank (action_constraint p) action a e2)
          (resource_rank (resource_constraint p) (resource_query c resource) o e3))

  -- Where no two policies share an id, a policy's match is found by its id.
  pub reasons_for_policy-map :
      (ms : List (Matched c)) (m : Matched c)
      → Pairwise (λ (a b : Matched c). policy_id a.0 ≢ policy_id b.0) ms
      → Member m ms
      → reasons_for_policy (policy_id m.0) (map (policy_match c) ms)
        ≡ some (dedup_reasons (sort reason_le m.1))
  unfolding reasons_for_policy
  reasons_for_policy-map [] m distinct at = absurd at
  reasons_for_policy-map (n ∷ ns) m (own, distinct) at = elim at [
    | inl e ↦
        rw
          ((eq_iff (policy_id n.0) (policy_id m.0)).1
            (ap (λ (x : Matched c). policy_id x.0) (sym e)))
          (ap (λ (x : Matched c). some (dedup_reasons (sort reason_le x.1))) (sym e))
    | inr deep ↦
        rw (beq_ne (policy_id n.0) (policy_id m.0) (own m deep))
          (reasons_for_policy-map ns m distinct deep)
  ]
