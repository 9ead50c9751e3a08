-- ===== src/Partition/Installed.antt =====
-- What the insertion loop of `partition_policy_set` in src/engine.rs leaves in the stores.
use treetop_core.Prelude.{
  ℕ, List, [], ◌∷◌, some, ◌≡◌, arith, ◌⊎◌, inl, inr, ◌∙◌, sym, ap, subst, ◌↔◌, Member, length,
  get_elem?, set, get_elem?-set, length-set, nat_beq, nat_beq_iff, Bool-cases,
}
use treetop_core.Error.{policy_store_config_error, ok, or_fail, >>=-eq-ok, or_fail-eq-ok}
use treetop_core.Cedar.{Cedar}
use treetop_core.Partition.{install}

module _ (c : Cedar) where
  open c use {Policy, PolicySet, policies, add, policies-add}

  -- Store `i` holds a policy.
  abbrev pub Holds : List PolicySet → ℕ → Policy → Type 0
  Holds stores i q = (s : PolicySet) × (get_elem? stores i ≡ some s) × Member q (policies s)

  set-Holds :
      (stores : List PolicySet) (i j : ℕ) (s t : PolicySet) (p q : Policy)
      → get_elem? stores i ≡ some s
      → add s p ≡ some t
      → Holds (set stores i t) j q ↔ (Holds stores j q ⊎ ((q ≡ p) × (j ≡ i)))
  set-Holds stores i j s t p q at added =
      let (there, back) = policies-add s t p q added in
      elim (Bool-cases (nat_beq i j)) [
        | inl e ↦
            let same = (nat_beq_iff i j).0 e in
            let now : get_elem? (set stores i t) j ≡ some t =
              get_elem?-set stores i j t at ∙ rw e in
            let before : get_elem? stores j ≡ some s = rw (← same) at in
            (
              λ (u, atu, m).
                  let m' : Member q (policies t) =
                    subst (λ (x : PolicySet). Member q (policies x)) (cc (now, atu)) m in
                  elim (there m') [
                    | inl is_p ↦ inr (is_p, sym same)
                    | inr old ↦ inl (s, before, old)
                  ],
              λ h. (
                t,
                now,
                back (elim h [
                  | inl (u, atu, m) ↦
                      inr (subst (λ (x : PolicySet). Member q (policies x)) (cc (before, atu)) m)
                  | inr (is_p, _) ↦ inl is_p
                ]),
              ),
            )
        | inr e ↦
            let unchanged : get_elem? (set stores i t) j ≡ get_elem? stores j =
              get_elem?-set stores i j t at ∙ rw e in
            (
              λ (u, atu, m). inl (u, sym unchanged ∙ atu, m),
              λ h. elim h [
                | inl (u, atu, m) ↦ (u, unchanged ∙ atu, m)
                | inr (_, same) ↦ absurd (ground (arith, nat_beq_iff i j))
              ],
            )
      ]

  install-cons :
      (p : Policy) (i : ℕ) (is : List ℕ) (stores stores' : List PolicySet)
      → install c p (i ∷ is) stores ≡ ok stores'
      → (s t : PolicySet) × (get_elem? stores i ≡ some s)
        × (add s p ≡ some t)
        × (install c p is (set stores i t) ≡ ok stores')
  unfolding install
  install-cons p i is stores stores' h =
      let (s, at, h') = >>=-eq-ok (or_fail (get_elem? stores i) policy_store_config_error) _ h in
      let (t, added, h'') = >>=-eq-ok (or_fail (add s p) policy_store_config_error) _ h' in
      (
        s,
        t,
        or_fail-eq-ok (get_elem? stores i) policy_store_config_error at,
        or_fail-eq-ok (add s p) policy_store_config_error added,
        h'',
      )

  pub install-Holds :
      (p : Policy) (is : List ℕ) (stores stores' : List PolicySet) (j : ℕ) (q : Policy)
      → install c p is stores ≡ ok stores'
      → Holds stores' j q ↔ (Holds stores j q ⊎ ((q ≡ p) × Member j is))
  install-Holds p [] stores stores' j q h =
      let same : stores ≡ stores' = unfold install in cc h in
      (
        λ m. inl (subst (λ ss. Holds ss j q) (sym same) m),
        λ m. elim m [
          | inl old ↦ subst (λ ss. Holds ss j q) same old
          | inr (_, no_member) ↦ absurd no_member
        ],
      )
  install-Holds p (i ∷ is) stores stores' j q h =
      let (s, t, at, added, rest) = install-cons p i is stores stores' h in
      let (there, back) = install-Holds p is (set stores i t) stores' j q rest in
      let (here, put) = set-Holds stores i j s t p q at added in
      (
        λ m. elim (there m) [
          | inl now ↦ elim (here now) [ inl old ↦ inl old | inr (e, k) ↦ inr (e, inl k) ]
          | inr (e, k) ↦ inr (e, inr k)
        ],
        λ m. back (elim m [
          | inl old ↦ inl (put (inl old))
          | inr (e, k) ↦ elim k [
            | inl here ↦ inl (put (inr (e, here)))
            | inr later ↦ inr (e, later)
          ]
        ]),
      )

  pub install-length :
      (p : Policy) (is : List ℕ) (stores stores' : List PolicySet)
      → install c p is stores ≡ ok stores'
      → length stores' ≡ length stores
  install-length p [] stores stores' h = unfold install in ap length (cc h)
  install-length p (i ∷ is) stores stores' h =
      let (s, t, _, _, rest) = install-cons p i is stores stores' h in
      install-length p is (set stores i t) stores' rest ∙ length-set stores i t
