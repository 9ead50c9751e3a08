-- ===== src/Loader/Metadata.antt =====
-- The permit metadata that src/loader.rs computes beforehand: every permit policy has its entry.
use treetop_core.Prelude.{
  String, List, [], ◌∷◌, some, ◌≡◌, ◌≢◌, refl, sym, ap, subst, ◌∙◌, ◌⊎◌, inl, inr, Member,
  Bool-cases, string_eq, eq_iff, ◌==◌, beq_self,
}
use treetop_core.Prelude.Assoc.{get}
use treetop_core.Error.{eval_error, ok, ◌>>=◌, or_fail, >>=-eq-ok, ok-inj, or_fail-eq-ok}
use treetop_core.Cedar.{Cedar}
use treetop_core.Cedar.Syntax.{Effect, permit, forbid}
use treetop_core.Cedar.Authorization.{Authorization}
use treetop_core.Decision.{PermitPolicy, new_permit_policy}
use treetop_core.Loader.{precompute_permits, precompute_permit_policies}

pub Effect-cases : (e : Effect) → (e ≡ permit) ⊎ (e ≡ forbid)
Effect-cases permit = inl refl
Effect-cases forbid = inr refl

permit-forbid : permit ≢ forbid
permit-forbid h = cc h

module _ (c : Cedar) (a : Authorization c) where
  open c use {Policy, policy_id, effect, PolicySet, policies}

  abbrev Table : Type 0
  Table = List (String × PermitPolicy c a)

  -- The entry of the policy.
  abbrev HasEntry : Policy → Table → Type 0
  HasEntry p table =
      (json : a.Json) × (a.to_json p ≡ some json)
      × (get (policy_id p) table
          ≡ some (new_permit_policy c a (a.show_policy p) json (policy_id p)))

  permits-head :
      (p : Policy) (ps : List Policy) (table : Table)
      → effect p ≡ permit
      → precompute_permits c a (p ∷ ps) ≡ ok table
      → (json : a.Json) × (rest : Table) × (a.to_json p ≡ some json)
        × (precompute_permits c a ps ≡ ok rest)
        × ((policy_id p, new_permit_policy c a (a.show_policy p) json (policy_id p)) ∷ rest ≡ table)
  unfolding precompute_permits
  permits-head p ps table e h =
      let run : (do
        json ← or_fail (a.to_json p) eval_error
        rest ← precompute_permits c a ps
        ok ((policy_id p, new_permit_policy c a (a.show_policy p) json (policy_id p)) ∷ rest))
          ≡ ok table =
        rw (e, precompute_permits) at h in
      let (json, parsed, h1) = >>=-eq-ok (or_fail (a.to_json p) eval_error) _ run in
      let (rest, deep, same) = >>=-eq-ok (precompute_permits c a ps) _ h1 in
      (json, rest, or_fail-eq-ok (a.to_json p) eval_error parsed, deep, ok-inj same)

  precompute_permits-HasEntry :
      (ps : List Policy) (table : Table) (q : Policy)
      → ((p : Policy) → Member p ps → policy_id p ≡ policy_id q → p ≡ q)
      → precompute_permits c a ps ≡ ok table
      → Member q ps
      → effect q ≡ permit
      → HasEntry q table
  unfolding get precompute_permits
  precompute_permits-HasEntry [] table q same h m own = absurd m
  precompute_permits-HasEntry (p ∷ ps) table q same h m own = elim (Effect-cases (effect p)) [
    | inl e ↦
        let (json, rest, parsed, deep, shape) = permits-head p ps table e h in
        elim (Bool-cases (policy_id p == policy_id q)) [
          | inl here ↦
              let it = same p (inl refl) ((eq_iff (policy_id p) (policy_id q)).0 here) in
              subst (HasEntry q) shape (
                subst
                  (λ x. HasEntry x (
                    (policy_id p, new_permit_policy c a (a.show_policy p) json (policy_id p))
                    ∷ rest))
                  it (json, parsed, rw (beq_self (policy_id p)) refl))
          | inr other ↦
              let m' : Member q ps = elim m [
                | inl it ↦ absurd (cc (other, beq_self (policy_id p), it))
                | inr tail ↦ tail
              ] in
              let (json', parsed', at) =
                precompute_permits-HasEntry ps rest q (λ x k. same x (inr k)) deep m' own in
              subst (HasEntry q) shape (json', parsed', rw other at)
        ]
    | inr e ↦
        let deep : precompute_permits c a ps ≡ ok table = rw (e, precompute_permits) at h in
        precompute_permits-HasEntry ps table q (λ x k. same x (inr k)) deep
          (elim m [
            | inl it ↦ absurd (permit-forbid (sym own ∙ ap effect it ∙ e))
            | inr tail ↦ tail
          ])
          own
  ]

  -- Where the metadata is computed, each permit policy of the set is found in it under its id, with
  -- its text and its JSON.
  pub precompute_permit_policies-HasEntry :
      (set : PolicySet) (table : Table) (q : Policy)
      → precompute_permit_policies c a set ≡ ok table
      → Member q (policies set)
      → effect q ≡ permit
      → (json : a.Json) × (a.to_json q ≡ some json)
        × (get (policy_id q) table
            ≡ some (new_permit_policy c a (a.show_policy q) json (policy_id q)))
  unfolding precompute_permit_policies
  precompute_permit_policies-HasEntry set table q h m own =
      precompute_permits-HasEntry (policies set) table q (λ p k. c.ids_identify set p q k m) h m own
