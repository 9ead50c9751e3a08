-- ===== src/Store/Assignment/References.antt =====
-- `policy_candidates` of src/policy_store.rs collects exactly the names that occur in a policy.
use treetop_core.Prelude.{
  String, List, [], ◌∷◌, ◌++◌, ◌≡◌, refl, sym, subst, inl, inr, ◌↔◌, Member, Member-append,
}
use treetop_core.Cedar.Syntax.{
  PrincipalConstraint, ActionConstraint, ResourceConstraint, EntityOrSlot, entity, slot, Clause,
  when_clause, unless_clause, Body,
}
use treetop_core.Store.Assignment.{
  collect_expr_references, principal_references, action_references, resource_references,
  clause_references, references, collect_entity_or_slot,
}
use treetop_core.Store.Assignment.Occurs.{
  OccursIn, IsEntity, filled, InPrincipal, InResource, InAction, condition_of, NamedIn,
  in_principal, in_action, in_resource, in_clause,
}
use treetop_core.Store.Assignment.Expressions.{in_left, in_right, Member-collect_iff}

collect-IsEntity :
    (name : String) (v : EntityOrSlot) → Member name (collect_entity_or_slot v) → IsEntity name v
collect-IsEntity name (entity t) (inl same) = subst (λ n. IsEntity n (entity t)) (sym same) filled
collect-IsEntity name (entity t) (inr m) = absurd m
collect-IsEntity name slot m = absurd m

IsEntity-collect :
    (name : String) {v : EntityOrSlot} → IsEntity name v → Member name (collect_entity_or_slot v)
IsEntity-collect name filled = inl refl

principal-InPrincipal :
    (name : String) (p : PrincipalConstraint EntityOrSlot String)
    → Member name (principal_references p)
    → InPrincipal name p
unfolding principal_references
principal-InPrincipal name PrincipalConstraint.any m = absurd m
principal-InPrincipal name (PrincipalConstraint.eq v) m =
    InPrincipal.equal (collect-IsEntity name v m)
principal-InPrincipal name (PrincipalConstraint.inside v) m =
    InPrincipal.below (collect-IsEntity name v m)
principal-InPrincipal name (PrincipalConstraint.is t) (inl same) =
    subst (λ n. InPrincipal n (PrincipalConstraint.is t)) (sym same) InPrincipal.of_type
principal-InPrincipal name (PrincipalConstraint.is t) (inr m) = absurd m
principal-InPrincipal name (PrincipalConstraint.is_in t v) (inl same) =
    subst (λ n. InPrincipal n (PrincipalConstraint.is_in t v)) (sym same) InPrincipal.of_type_in
principal-InPrincipal name (PrincipalConstraint.is_in t v) (inr m) =
    InPrincipal.in_entity (collect-IsEntity name v m)

InPrincipal-principal :
    (name : String) {p : PrincipalConstraint EntityOrSlot String}
    → InPrincipal name p
    → Member name (principal_references p)
unfolding principal_references
InPrincipal-principal name (InPrincipal.equal k) = IsEntity-collect name k
InPrincipal-principal name (InPrincipal.below k) = IsEntity-collect name k
InPrincipal-principal name InPrincipal.of_type = inl refl
InPrincipal-principal name InPrincipal.of_type_in = inl refl
InPrincipal-principal name (InPrincipal.in_entity k) = inr (IsEntity-collect name k)

resource-InResource :
    (name : String) (p : ResourceConstraint EntityOrSlot String)
    → Member name (resource_references p)
    → InResource name p
unfolding resource_references
resource-InResource name ResourceConstraint.any m = absurd m
resource-InResource name (ResourceConstraint.eq v) m = InResource.equal (collect-IsEntity name v m)
resource-InResource name (ResourceConstraint.inside v) m =
    InResource.below (collect-IsEntity name v m)
resource-InResource name (ResourceConstraint.is t) (inl same) =
    subst (λ n. InResource n (ResourceConstraint.is t)) (sym same) InResource.of_type
resource-InResource name (ResourceConstraint.is t) (inr m) = absurd m
resource-InResource name (ResourceConstraint.is_in t v) (inl same) =
    subst (λ n. InResource n (ResourceConstraint.is_in t v)) (sym same) InResource.of_type_in
resource-InResource name (ResourceConstraint.is_in t v) (inr m) =
    InResource.in_entity (collect-IsEntity name v m)

InResource-resource :
    (name : String) {p : ResourceConstraint EntityOrSlot String}
    → InResource name p
    → Member name (resource_references p)
unfolding resource_references
InResource-resource name (InResource.equal k) = IsEntity-collect name k
InResource-resource name (InResource.below k) = IsEntity-collect name k
InResource-resource name InResource.of_type = inl refl
InResource-resource name InResource.of_type_in = inl refl
InResource-resource name (InResource.in_entity k) = inr (IsEntity-collect name k)

action-InAction :
    (name : String) (p : ActionConstraint String)
    → Member name (action_references p)
    → InAction name p
unfolding action_references
action-InAction name ActionConstraint.any m = absurd m
action-InAction name (ActionConstraint.eq t) (inl same) =
    subst (λ n. InAction n (ActionConstraint.eq t)) (sym same) InAction.equal
action-InAction name (ActionConstraint.eq t) (inr m) = absurd m
action-InAction name (ActionConstraint.inside ts) m = InAction.among m

InAction-action :
    (name : String) {p : ActionConstraint String}
    → InAction name p
    → Member name (action_references p)
unfolding action_references
InAction-action name InAction.equal = inl refl
InAction-action name (InAction.among m) = m

clause_references-cons :
    (clause : Clause) (cs : List Clause)
    → clause_references (clause ∷ cs)
      ≡ collect_expr_references (condition_of clause) ++ clause_references cs
unfolding clause_references
clause_references-cons (when_clause e) cs = refl
clause_references-cons (unless_clause e) cs = refl

Member-clauses_iff :
    (name : String) (cs : List Clause)
    → Member name (clause_references cs)
      ↔ ((clause : Clause) × Member clause cs × OccursIn name (condition_of clause))
unfolding clause_references
Member-clauses_iff name [] = (λ m. absurd m, λ (clause, m, _). absurd m)
Member-clauses_iff name (clause ∷ cs) =
    let (there, back) = Member-clauses_iff name cs in
    let (split, join) =
      Member-append name (collect_expr_references (condition_of clause)) (clause_references cs) in
    rw (clause_references-cons clause cs) (
      λ m. elim (split m) [
        | inl k ↦ (clause, inl refl, (Member-collect_iff name (condition_of clause)).0 k)
        | inr k ↦ let (other, at, o) = there k in (other, inr at, o)
      ],
      λ (other, at, o). join (elim at [
        | inl same ↦ inl (
            (Member-collect_iff name (condition_of clause)).1
              (subst (λ x. OccursIn name (condition_of x)) same o))
        | inr later_clause ↦ inr (back (other, later_clause, o))
      ]),
    )

NamedIn-references :
    (name : String) (body : Body) → NamedIn name body → Member name (references body)
unfolding references
NamedIn-references name body (in_principal k) = in_left name _ _ (InPrincipal-principal name k)
NamedIn-references name body (in_action k) =
    in_right name (principal_references body.principal) _
      (in_left name _ _ (InAction-action name k))
NamedIn-references name body (in_resource k) =
    in_right name (principal_references body.principal) _ (
      in_right name (action_references body.action) _
        (in_left name _ _ (InResource-resource name k)))
NamedIn-references name body (in_clause clause at o) =
    in_right name (principal_references body.principal) _ (
      in_right name (action_references body.action) _ (
        in_right name (resource_references body.resource) _
          ((Member-clauses_iff name body.clauses).1 (clause, at, o))))

-- What `policy_candidates` collects are the names that occur in the policy.
pub Member-references_iff :
    (name : String) (body : Body) → Member name (references body) ↔ NamedIn name body
unfolding references
Member-references_iff name body = (
  λ m. elim ((Member-append name (principal_references body.principal) _).0 m) [
    | inl k ↦ in_principal (principal-InPrincipal name body.principal k)
    | inr m ↦ elim ((Member-append name (action_references body.action) _).0 m) [
      | inl k ↦ in_action (action-InAction name body.action k)
      | inr m ↦ elim ((Member-append name (resource_references body.resource) _).0 m) [
        | inl k ↦ in_resource (resource-InResource name body.resource k)
        | inr k ↦
            let (clause, at, o) = (Member-clauses_iff name body.clauses).0 k in
            in_clause clause at o
      ]
    ]
  ],
  NamedIn-references name body,
)
