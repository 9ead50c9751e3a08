-- ===== src/Listing/Actions.antt =====
-- Which actions the permit policies of src/types/user_policies.rs name.
use treetop_core.Prelude.{
  List, [], ◌∷◌, ◌++◌, ◌≡◌, refl, sym, ap, ◌∙◌, subst, ◌⊎◌, inl, inr, ◌↔◌, Member, Member-append,
}
use treetop_core.Cedar.{Cedar}
use treetop_core.Cedar.Syntax.{Effect, permit, forbid}
use treetop_core.Listing.{permitted_actions, constraint_actions}

effect-cases : (e : Effect) → (e ≡ permit) ⊎ (e ≡ forbid)
effect-cases permit = inl refl
effect-cases forbid = inr refl

module _ (c : Cedar) where
  open c use {Uid, Policy, effect, action_constraint}

  pub Member-permitted_actions :
      (ps : List Policy) (u : Uid)
      → Member u (permitted_actions c ps) ↔ (
          (p : Policy) × Member p ps
          × (effect p ≡ permit)
          × Member u (constraint_actions c (action_constraint p)))
  unfolding permitted_actions
  Member-permitted_actions [] u = (λ h. absurd h, λ (p, at, _, _). absurd at)
  Member-permitted_actions (p ∷ ps) u =
      let rest = Member-permitted_actions ps u in
      let own_actions = constraint_actions c (action_constraint p) in
      elim (effect-cases (effect p)) [
        | inl is_permit ↦
            let shape : permitted_actions c (p ∷ ps) ≡ own_actions ++ permitted_actions c ps =
              rw (is_permit, permitted_actions) refl in
            rw shape (
              λ h. elim ((Member-append u own_actions _).0 h) [
                | inl own ↦ (p, inl refl, is_permit, own)
                | inr deep ↦ let (q, at, k, named) = rest.0 deep in (q, inr at, k, named)
              ],
              λ (q, at, k, own). (Member-append u own_actions _).1 (elim at [
                | inl e ↦
                    inl (subst (λ q. Member u (constraint_actions c (action_constraint q))) e own)
                | inr deep ↦ inr (rest.1 (q, deep, k, own))
              ]),
            )
        | inr is_forbid ↦
            let shape : permitted_actions c (p ∷ ps) ≡ permitted_actions c ps =
              rw (is_forbid, permitted_actions) refl in
            rw shape (
              λ h. let (q, at, k, own) = rest.0 h in (q, inr at, k, own),
              λ (q, at, k, own). elim at [
                | inl e ↦ absurd (cc (sym is_forbid ∙ ap effect (sym e) ∙ k))
                | inr deep ↦ rest.1 (q, deep, k, own)
              ],
            )
      ]
