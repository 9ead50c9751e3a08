-- ===== src/Store/Assignment.antt =====
-- Which store a policy belongs to: `explicit_policy_store` and `policy_candidates` of
-- src/policy_store.rs, and the helpers that read a policy's syntax tree.
pub mod Occurs
pub mod Expressions
pub mod References
pub mod Candidates
pub mod Exact
use treetop_core.Prelude.{
  ℕ, suc, String, List, [], ◌∷◌, ◌++◌, Option, none, some, Bool, ◌==◌, string_eq, nat_eq, ltb, map,
  if◌then◌else◌,
}
use treetop_core.Error.{policy_store_config_error, Result, ok, err, ◌>>=◌, or_fail}
use treetop_core.Cedar.{Cedar}
use treetop_core.Cedar.Syntax.{
  PrincipalConstraint, ActionConstraint, ResourceConstraint, EntityOrSlot, entity, slot, Expr,
  Exprs, nil, cons, Clause, when_clause, unless_clause, Body,
}
use treetop_core.Store.Router.{NamespaceNode}
use treetop_core.Store.Layout.{PolicyStoreConfig, PolicyStoreLayout, resolve_qualified_name}

abbrev pub policy_store_annotation : String
policy_store_annotation = "treetop_store"

pub data ExplicitPolicyStore : Type 0 where
  global : ExplicitPolicyStore
  store : ℕ → ExplicitPolicyStore

-- `position` of the id, counted from `index`.
unfoldable pub position : ℕ → String → List PolicyStoreConfig → Option ℕ
position index id [] = none
position index id (s ∷ ss) = if s.id == id then some index else position (suc index) id ss

unfoldable pub store_index_by_id : PolicyStoreLayout → String → Option ℕ
unfolding position
store_index_by_id layout id = position 0 id layout.stores

abbrev pub collect_entity_or_slot : EntityOrSlot → List String
collect_entity_or_slot (entity type_text) = type_text ∷ []
collect_entity_or_slot slot = []

-- The names in the order in which they are pushed.
unfoldable mutual
  pub collect_expr_references : Expr → List String
  collect_expr_references (Expr.entity_uid t) = t ∷ []
  collect_expr_references (Expr.unary_op e) = collect_expr_references e
  collect_expr_references (Expr.get_attr e) = collect_expr_references e
  collect_expr_references (Expr.has_attr e) = collect_expr_references e
  collect_expr_references (Expr.like e) = collect_expr_references e
  collect_expr_references (Expr.binary_op l r) =
      collect_expr_references l ++ collect_expr_references r
  collect_expr_references (Expr.is e t) = t ∷ collect_expr_references e
  collect_expr_references (Expr.is_in e t i) =
      t ∷ (collect_expr_references e ++ collect_expr_references i)
  collect_expr_references (Expr.if_then_else b t e) =
      collect_expr_references b ++ (collect_expr_references t ++ collect_expr_references e)
  collect_expr_references (Expr.set es) = collect_all_references es
  collect_expr_references (Expr.record_of es) = collect_all_references es
  collect_expr_references Expr.other = []

  pub collect_all_references : Exprs → List String
  collect_all_references nil = []
  collect_all_references (cons e es) = collect_expr_references e ++ collect_all_references es

unfoldable pub principal_references : PrincipalConstraint EntityOrSlot String → List String
principal_references PrincipalConstraint.any = []
principal_references (PrincipalConstraint.eq value) = collect_entity_or_slot value
principal_references (PrincipalConstraint.inside value) = collect_entity_or_slot value
principal_references (PrincipalConstraint.is t) = t ∷ []
principal_references (PrincipalConstraint.is_in t value) = t ∷ collect_entity_or_slot value

unfoldable pub action_references : ActionConstraint String → List String
action_references ActionConstraint.any = []
action_references (ActionConstraint.eq t) = t ∷ []
action_references (ActionConstraint.inside ts) = ts

unfoldable pub resource_references : ResourceConstraint EntityOrSlot String → List String
resource_references ResourceConstraint.any = []
resource_references (ResourceConstraint.eq value) = collect_entity_or_slot value
resource_references (ResourceConstraint.inside value) = collect_entity_or_slot value
resource_references (ResourceConstraint.is t) = t ∷ []
resource_references (ResourceConstraint.is_in t value) = t ∷ collect_entity_or_slot value

unfoldable pub clause_references : List Clause → List String
unfolding collect_expr_references
clause_references [] = []
clause_references (when_clause e ∷ cs) = collect_expr_references e ++ clause_references cs
clause_references (unless_clause e ∷ cs) = collect_expr_references e ++ clause_references cs

-- All names that `policy_candidates` collects.
unfoldable pub references : Body → List String
unfolding principal_references action_references resource_references clause_references
references body =
    principal_references body.principal
    ++ (action_references body.action
        ++ (resource_references body.resource ++ clause_references body.clauses))

-- Insertion into a `BTreeSet<usize>`, kept in order.
unfoldable pub insert_index : ℕ → List ℕ → List ℕ
insert_index i [] = i ∷ []
insert_index i (j ∷ js) =
    let rest = insert_index i js in
    if i == j then j ∷ js else if ltb i j then i ∷ j ∷ js else j ∷ rest

-- `insert_name_candidate`
unfoldable pub insert_name_candidate : NamespaceNode → String → List ℕ → List ℕ
insert_name_candidate router name candidates = elim (resolve_qualified_name name router) [
  | none ↦ candidates
  | some i ↦ insert_index i candidates
]

unfoldable pub insert_names : NamespaceNode → List String → List ℕ → List ℕ
insert_names router [] candidates = candidates
insert_names router (name ∷ names) candidates =
    insert_names router names (insert_name_candidate router name candidates)

-- `if candidates.len() > 1 { return Err(…) }`
abbrev pub at_most_one : List ℕ → Result (List ℕ)
at_most_one [] = ok []
at_most_one (i ∷ []) = ok (i ∷ [])
at_most_one (i ∷ j ∷ is) = err policy_store_config_error

module _ (c : Cedar) where
  open c use {Policy, policy_id, annotation, to_pst}

  unfoldable pub explicit_policy_store :
      PolicyStoreLayout → Policy → Result (Option ExplicitPolicyStore)
  explicit_policy_store layout policy = elim (annotation policy policy_store_annotation) [
    | none ↦ ok none
    | some value ↦ if value == "*" then ok (some global) else do
      i ← or_fail (store_index_by_id layout value) policy_store_config_error
      ok (some (store i))
  ]

  unfoldable pub policy_candidates : PolicyStoreLayout → Policy → Result (List ℕ)
  policy_candidates layout policy = do
    body ← or_fail (to_pst policy) policy_store_config_error
    at_most_one (insert_names layout.namespace_router (references body) [])

  -- The `@id` of a policy if it has one that is not empty, else its own id.
  unfoldable pub display_policy_id : Policy → String
  display_policy_id policy = elim (annotation policy "id") [
    | none ↦ policy_id policy
    | some id ↦ if id == "" then policy_id policy else id
  ]
