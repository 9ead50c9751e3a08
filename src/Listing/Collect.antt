-- ===== src/Listing/Collect.antt =====
-- The loop of `list_policies_dispatch` in src/engine.rs: which policies it collects.
use treetop_core.Prelude.{
  String, List, [], ◌∷◌, Option, none, some, contains, string_eq, eq_iff, ◌==◌, ◌≡◌, ◌≢◌, refl, sym,
  ap, ◌∙◌, subst, ◌⊎◌, inl, inr, ◌↔◌, arith, Member, contains→Member, Member→contains, Bool-cases,
  Option-cases,
}
use treetop_core.Prelude.Sorting.{Pairwise}
use treetop_core.Cedar.{Cedar}
use treetop_core.Match.{PolicyMatchReason}
use treetop_core.Listing.{Matched, prepend_match, collect_matches}

module _ (c : Cedar) where
  open c use {Policy, policy_id}

  Member-prepend_match :
      (p : Policy) (o : Option (List PolicyMatchReason)) (rest : List (Matched c)) (m : Matched c)
      → Member m (prepend_match c p o rest) ↔ (((o ≡ some m.1) × (m.0 ≡ p)) ⊎ Member m rest)
  Member-prepend_match p none rest m = (λ h. inr h, λ h. elim h [ inl (e, _) ↦ cc e | inr k ↦ k ])
  Member-prepend_match p (some rs) rest m = (
    λ h. elim h [
      | inl e ↦ inl (ap (λ (x : Matched c). some x.1) (sym e), ap (λ (x : Matched c). x.0) e)
      | inr k ↦ inr k
    ],
    λ h. elim h [
      | inl (e, own) ↦ let q : m.1 ≡ rs = cc e in inl (λ i. (own i, q i))
      | inr k ↦ inr k
    ],
  )

  module _ (test : Policy → Option (List PolicyMatchReason)) where
    pub collect_matches_sound :
        (seen : List String) (ps : List Policy) (m : Matched c)
        → Member m (collect_matches c test seen ps)
        → Member m.0 ps × (test m.0 ≡ some m.1) × ¬ Member (policy_id m.0) seen
    unfolding collect_matches
    collect_matches_sound seen [] m h = absurd h
    collect_matches_sound seen (p ∷ ps) m h = elim (Bool-cases (contains (policy_id p) seen)) [
      | inl old ↦
          let deep : Member m (collect_matches c test seen ps) = ground arith in
          let (at, passed, new) = collect_matches_sound seen ps m deep in (inr at, passed, new)
      | inr new ↦
          let split : Member m
              (prepend_match c p (test p) (collect_matches c test (policy_id p ∷ seen) ps)) =
            ground arith in
          elim ((Member-prepend_match p (test p) _ m).0 split) [
            | inl (passed, own) ↦ (
              inl own,
              ap test own ∙ passed,
              λ b. cc (
                new,
                Member→contains (policy_id p) seen (subst (λ q. Member (policy_id q) seen) own b),
              ),
            )
            | inr deep ↦
                let (at, passed, other) = collect_matches_sound (policy_id p ∷ seen) ps m deep in
                (inr at, passed, λ b. other (inr b))
          ]
    ]

    -- Ids tell the policies of the list apart.
    pub collect_matches_complete :
        (seen : List String) (ps : List Policy) (m : Matched c)
        → ((p : Policy) → Member p ps → policy_id m.0 ≡ policy_id p → m.0 ≡ p)
        → Member m.0 ps
        → test m.0 ≡ some m.1
        → ¬ Member (policy_id m.0) seen
        → Member m (collect_matches c test seen ps)
    unfolding collect_matches
    collect_matches_complete seen [] m same at passed new = absurd at
    collect_matches_complete seen (p ∷ ps) m same at passed new =
        elim (Bool-cases (contains (policy_id p) seen)) [
          | inl old ↦ rw old (
              collect_matches_complete seen ps m (λ q a. same q (inr a))
                (elim at [
                  | inl own ↦ absurd (
                      new (
                        subst (λ q. Member (policy_id q) seen) (sym own)
                          (contains→Member (policy_id p) seen old)))
                  | inr deep ↦ deep
                ])
                passed new)
          | inr fresh ↦ rw fresh (
              (Member-prepend_match p (test p) _ m).1
                (elim (Bool-cases (policy_id m.0 == policy_id p)) [
                  | inl e ↦
                      let own = same p (inl refl) ((eq_iff (policy_id m.0) (policy_id p)).0 e) in
                      inl (ap test (sym own) ∙ passed, own)
                  | inr e ↦
                      let other : policy_id m.0 ≢ policy_id p =
                        ground (arith, eq_iff (policy_id m.0) (policy_id p)) in
                      inr (
                        collect_matches_complete (policy_id p ∷ seen) ps m (λ q a. same q (inr a))
                          (elim at [
                            | inl own ↦ absurd (other (ap policy_id own))
                            | inr deep ↦ deep
                          ])
                          passed (λ b. elim b [ inl f ↦ other f | inr g ↦ new g ]))
                ]))
        ]

    pub collect_matches-Pairwise :
        (seen : List String) (ps : List Policy)
        → Pairwise
            (λ (a b : Matched c). policy_id a.0 ≢ policy_id b.0)
            (collect_matches c test seen ps)
    unfolding collect_matches
    collect_matches-Pairwise seen [] = tt
    collect_matches-Pairwise seen (p ∷ ps) =
        let rest = collect_matches-Pairwise (policy_id p ∷ seen) ps in
        elim (Bool-cases (contains (policy_id p) seen)) [
          | inl old ↦ rw old (collect_matches-Pairwise seen ps)
          | inr fresh ↦ rw fresh (elim (Option-cases (test p)) [
            | inl e ↦ rw e rest
            | inr (rs, e) ↦ rw e (
              λ m at same.
                  let (_, _, other) = collect_matches_sound (policy_id p ∷ seen) ps m at in
                  other (inl (sym same)),
              rest,
            )
          ])
        ]
