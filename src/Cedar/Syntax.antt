-- ===== src/Cedar/Syntax.antt =====
-- The enums of the crate `cedar_policy` that the code matches on. A syntax tree's entity type is
-- read through `to_string` alone, so the tree holds that text.
use treetop_core.Prelude.{String, List}

pub data Effect : Type 0 where
  permit forbid : Effect

-- `cedar_policy::PrincipalConstraint`, over the types of its uids and entity types.
pub data PrincipalConstraint (U T : Type 0) : Type 0 where
  any : PrincipalConstraint U T
  is_in : T → U → PrincipalConstraint U T
  inside : U → PrincipalConstraint U T
  eq : U → PrincipalConstraint U T
  is : T → PrincipalConstraint U T

pub data ActionConstraint (U : Type 0) : Type 0 where
  any : ActionConstraint U
  eq : U → ActionConstraint U
  inside : List U → ActionConstraint U

pub data ResourceConstraint (U T : Type 0) : Type 0 where
  any : ResourceConstraint U T
  is_in : T → U → ResourceConstraint U T
  inside : U → ResourceConstraint U T
  eq : U → ResourceConstraint U T
  is : T → ResourceConstraint U T

-- `cedar_policy::pst::EntityOrSlot`
pub data EntityOrSlot : Type 0 where
  entity : String → EntityOrSlot
  slot : EntityOrSlot

-- `cedar_policy::pst::Expr`: the variants that the code names, and `other` for the rest. The
-- values of a record stand in the order of the record's map.
mutual
  pub data Expr : Type 0 where
    entity_uid : String → Expr
    unary_op : Expr → Expr
    get_attr : Expr → Expr
    has_attr : Expr → Expr
    like : Expr → Expr
    binary_op : Expr → Expr → Expr
    is : Expr → String → Expr
    is_in : Expr → String → Expr → Expr
    if_then_else : Expr → Expr → Expr → Expr
    set : Exprs → Expr
    record_of : Exprs → Expr
    other : Expr

  pub data Exprs : Type 0 where
    nil : Exprs
    cons : Expr → Exprs → Exprs

pub data Clause : Type 0 where
  when_clause unless_clause : Expr → Clause

-- The body of a policy's syntax tree. There, constraints hold an entity or a template's slot.
pub record Body : Type 0 where
  pub principal : PrincipalConstraint EntityOrSlot String
  pub action : ActionConstraint String
  pub resource : ResourceConstraint EntityOrSlot String
  pub clauses : List Clause
