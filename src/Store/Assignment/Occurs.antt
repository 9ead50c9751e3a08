-- ===== src/Store/Assignment/Occurs.antt =====
-- Where the syntax tree of a policy names a type, said without the walk that src/policy_store.rs
-- makes over it.
use treetop_core.Prelude.{String, List, Member}
use treetop_core.Cedar.Syntax.{
  PrincipalConstraint, ActionConstraint, ResourceConstraint, EntityOrSlot, entity, Expr, Exprs,
  cons, Clause, when_clause, unless_clause, Body,
}

-- An expression of a list of expressions.
pub data Element (x : Expr) : Exprs → Type 0 where
  first : {es : Exprs} → Element x (cons x es)
  later : {e : Expr} {es : Exprs} → Element x es → Element x (cons e es)

-- A direct operand of an expression.
pub data Operand (x : Expr) : Expr → Type 0 where
  of_unary : Operand x (Expr.unary_op x)
  of_get : Operand x (Expr.get_attr x)
  of_has : Operand x (Expr.has_attr x)
  of_like : Operand x (Expr.like x)
  left : {r : Expr} → Operand x (Expr.binary_op x r)
  right : {l : Expr} → Operand x (Expr.binary_op l x)
  tested : {t : String} → Operand x (Expr.is x t)
  tested_in : {t : String} {i : Expr} → Operand x (Expr.is_in x t i)
  container : {e : Expr} {t : String} → Operand x (Expr.is_in e t x)
  condition : {t e : Expr} → Operand x (Expr.if_then_else x t e)
  then_branch : {b e : Expr} → Operand x (Expr.if_then_else b x e)
  else_branch : {b t : Expr} → Operand x (Expr.if_then_else b t x)
  member : {es : Exprs} → Element x es → Operand x (Expr.set es)
  value : {es : Exprs} → Element x es → Operand x (Expr.record_of es)

-- A subexpression, at any depth.
pub data Within (x : Expr) : Expr → Type 0 where
  itself : Within x x
  deeper : {y z : Expr} → Within x y → Operand y z → Within x z

-- An expression that is a literal uid of a type, or tests for it by `is`.
pub data Cites (name : String) : Expr → Type 0 where
  literal : Cites name (Expr.entity_uid name)
  test : {e : Expr} → Cites name (Expr.is e name)
  test_in : {e i : Expr} → Cites name (Expr.is_in e name i)

abbrev pub OccursIn : String → Expr → Type 0
OccursIn name e = (x : Expr) × Within x e × Cites name x

-- The type of an entity, where the tree holds one and not a slot.
pub data IsEntity (name : String) : EntityOrSlot → Type 0 where
  filled : IsEntity name (entity name)

pub data InPrincipal (name : String) : PrincipalConstraint EntityOrSlot String → Type 0 where
  equal : {v : EntityOrSlot} → IsEntity name v → InPrincipal name (PrincipalConstraint.eq v)
  below : {v : EntityOrSlot} → IsEntity name v → InPrincipal name (PrincipalConstraint.inside v)
  of_type : InPrincipal name (PrincipalConstraint.is name)
  of_type_in : {v : EntityOrSlot} → InPrincipal name (PrincipalConstraint.is_in name v)
  in_entity :
      {t : String} {v : EntityOrSlot}
      → IsEntity name v
      → InPrincipal name (PrincipalConstraint.is_in t v)

pub data InResource (name : String) : ResourceConstraint EntityOrSlot String → Type 0 where
  equal : {v : EntityOrSlot} → IsEntity name v → InResource name (ResourceConstraint.eq v)
  below : {v : EntityOrSlot} → IsEntity name v → InResource name (ResourceConstraint.inside v)
  of_type : InResource name (ResourceConstraint.is name)
  of_type_in : {v : EntityOrSlot} → InResource name (ResourceConstraint.is_in name v)
  in_entity :
      {t : String} {v : EntityOrSlot}
      → IsEntity name v
      → InResource name (ResourceConstraint.is_in t v)

pub data InAction (name : String) : ActionConstraint String → Type 0 where
  equal : InAction name (ActionConstraint.eq name)
  among : {ts : List String} → Member name ts → InAction name (ActionConstraint.inside ts)

abbrev pub condition_of : Clause → Expr
condition_of (when_clause e) = e
condition_of (unless_clause e) = e

-- A policy names a type in a scope constraint, or in the condition of a `when` or `unless` clause.
pub data NamedIn (name : String) (body : Body) : Type 0 where
  in_principal : InPrincipal name body.principal → NamedIn name body
  in_action : InAction name body.action → NamedIn name body
  in_resource : InResource name body.resource → NamedIn name body
  in_clause :
      (clause : Clause)
      → Member clause body.clauses
      → OccursIn name (condition_of clause)
      → NamedIn name body
