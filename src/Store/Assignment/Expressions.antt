-- ===== src/Store/Assignment/Expressions.antt =====
-- `collect_expr_references` of src/policy_store.rs collects exactly the names that occur in an
-- expression.
use treetop_core.Prelude.{
  String, List, ◌++◌, ◌≡◌, refl, sym, subst, inl, inr, ◌↔◌, Member, Member-append,
}
use treetop_core.Cedar.Syntax.{Expr, Exprs, nil, cons}
use treetop_core.Store.Assignment.{collect_expr_references, collect_all_references}
use treetop_core.Store.Assignment.Occurs.{
  Element, first, later, Operand, of_unary, of_get, of_has, of_like, left, right, tested, tested_in,
  container, condition, then_branch, else_branch, member, value, Within, itself, deeper, Cites,
  literal, test, test_in, OccursIn,
}

Element-collect :
    (name : String) {x : Expr} {es : Exprs}
    → Element x es
    → Member name (collect_expr_references x)
    → Member name (collect_all_references es)
unfolding collect_expr_references
Element-collect name (first {es}) m = (Member-append name _ _).1 (inl m)
Element-collect name (later {e} {es} k) m =
    (Member-append name (collect_expr_references e) _).1 (inr (Element-collect name k m))

pub in_left : (name : String) (xs ys : List String) → Member name xs → Member name (xs ++ ys)
in_left name xs ys m = (Member-append name xs ys).1 (inl m)

pub in_right : (name : String) (xs ys : List String) → Member name ys → Member name (xs ++ ys)
in_right name xs ys m = (Member-append name xs ys).1 (inr m)

-- What is collected from an operand is collected from the whole.
Operand-collect :
    (name : String) {x z : Expr}
    → Operand x z
    → Member name (collect_expr_references x)
    → Member name (collect_expr_references z)
unfolding collect_expr_references
Operand-collect name of_unary m = m
Operand-collect name of_get m = m
Operand-collect name of_has m = m
Operand-collect name of_like m = m
Operand-collect name left m = in_left name _ _ m
Operand-collect name (right {l}) m = in_right name (collect_expr_references l) _ m
Operand-collect name tested m = inr m
Operand-collect name tested_in m = inr (in_left name _ _ m)
Operand-collect name (container {e}) m = inr (in_right name (collect_expr_references e) _ m)
Operand-collect name condition m = in_left name _ _ m
Operand-collect name (then_branch {b}) m =
    in_right name (collect_expr_references b) _ (in_left name _ _ m)
Operand-collect name (else_branch {b} {t}) m =
    in_right name (collect_expr_references b) _ (in_right name (collect_expr_references t) _ m)
Operand-collect name (member k) m = Element-collect name k m
Operand-collect name (value k) m = Element-collect name k m

Cites-collect : (name : String) {x : Expr} → Cites name x → Member name (collect_expr_references x)
unfolding collect_expr_references
Cites-collect name literal = inl refl
Cites-collect name test = inl refl
Cites-collect name test_in = inl refl

Within-collect :
    (name : String) {x e : Expr}
    → Within x e
    → Member name (collect_expr_references x)
    → Member name (collect_expr_references e)
Within-collect name itself m = m
Within-collect name (deeper w o) m = Operand-collect name o (Within-collect name w m)

lift : {name : String} {y z : Expr} → Operand y z → OccursIn name y → OccursIn name z
lift o (x, w, k) = (x, deeper w o, k)

cited : {name t : String} {e : Expr} → name ≡ t → Cites t e → OccursIn name e
cited {e} same k = subst (λ n. OccursIn n e) (sym same) (e, itself, k)

mutual
  unfolding collect_expr_references

  collect-OccursIn :
      (name : String) (e : Expr) → Member name (collect_expr_references e) → OccursIn name e
  collect-OccursIn name (Expr.entity_uid t) (inl same) = cited same literal
  collect-OccursIn name (Expr.entity_uid t) (inr m) = absurd m
  collect-OccursIn name (Expr.unary_op e) m = lift of_unary (collect-OccursIn name e m)
  collect-OccursIn name (Expr.get_attr e) m = lift of_get (collect-OccursIn name e m)
  collect-OccursIn name (Expr.has_attr e) m = lift of_has (collect-OccursIn name e m)
  collect-OccursIn name (Expr.like e) m = lift of_like (collect-OccursIn name e m)
  collect-OccursIn name (Expr.binary_op l r) m =
      elim ((Member-append name (collect_expr_references l) (collect_expr_references r)).0 m) [
        | inl k ↦ lift left (collect-OccursIn name l k)
        | inr k ↦ lift right (collect-OccursIn name r k)
      ]
  collect-OccursIn name (Expr.is e t) (inl same) = cited same test
  collect-OccursIn name (Expr.is e t) (inr m) = lift tested (collect-OccursIn name e m)
  collect-OccursIn name (Expr.is_in e t i) (inl same) = cited same test_in
  collect-OccursIn name (Expr.is_in e t i) (inr m) =
      elim ((Member-append name (collect_expr_references e) (collect_expr_references i)).0 m) [
        | inl k ↦ lift tested_in (collect-OccursIn name e k)
        | inr k ↦ lift container (collect-OccursIn name i k)
      ]
  collect-OccursIn name (Expr.if_then_else b t e) m =
      elim ((Member-append name (collect_expr_references b) _).0 m) [
        | inl k ↦ lift condition (collect-OccursIn name b k)
        | inr n ↦
            elim ((Member-append name (collect_expr_references t) (collect_expr_references e)).0
              n) [
                | inl k ↦ lift then_branch (collect-OccursIn name t k)
                | inr k ↦ lift else_branch (collect-OccursIn name e k)
              ]
      ]
  collect-OccursIn name (Expr.set es) m =
      let (x, k, o) = collect-Element name es m in lift (member k) o
  collect-OccursIn name (Expr.record_of es) m =
      let (x, k, o) = collect-Element name es m in lift (value k) o
  collect-OccursIn name Expr.other m = absurd m

  collect-Element :
      (name : String) (es : Exprs)
      → Member name (collect_all_references es)
      → (x : Expr) × Element x es × OccursIn name x
  collect-Element name nil m = absurd m
  collect-Element name (cons e es) m =
      elim ((Member-append name (collect_expr_references e) (collect_all_references es)).0 m) [
        | inl k ↦ (e, first, collect-OccursIn name e k)
        | inr n ↦ let (x, k, o) = collect-Element name es n in (x, later k, o)
      ]

-- The names collected from an expression are those that occur in it.
pub Member-collect_iff :
    (name : String) (e : Expr) → Member name (collect_expr_references e) ↔ OccursIn name e
Member-collect_iff name e =
    (collect-OccursIn name e, λ (x, w, k). Within-collect name w (Cites-collect name k))
