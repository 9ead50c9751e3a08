-- ===== src/Labels/Registry.antt =====
-- What `LabelRegistry::apply` and `apply_to_clone_if_applicable` of src/labels.rs promise.
use treetop_core.Prelude.{
  String, List, none, some, Bool, string_eq, ◌≡◌, refl, ◌∙◌, sym, ap, subst, Option-cases, inl, inr,
  ◌⊎◌,
}
use treetop_core.Prelude.Assoc.{get}
use treetop_core.Cedar.{Cedar}
use treetop_core.Types.Resource.{Resource}
use treetop_core.Labels.{
  RegisteredLabeler, LabelRegistry, apply_scope, scope_of, apply_to_clone_if_applicable, apply,
  or_nil,
}
use treetop_core.Labels.Apply.{owned, AgreeOutside, apply_scope-AgreeOutside, apply_scope_cong}

module _ (c : Cedar) where
  -- Some labeler for the resource's type owns the attribute.
  unfoldable pub owns : LabelRegistry c → Resource c → String → Bool
  unfolding get
  owns registry r = owned c (or_nil c (scope_of c registry r))

  scope_of_cong :
      (registry : LabelRegistry c) (r s : Resource c)
      → r.uid ≡ s.uid
      → scope_of c registry r ≡ scope_of c registry s
  scope_of_cong registry r s h = ap (λ u. get ⦃e = c.type_eq⦄ (c.type_name u) registry.scopes) h

  owns-some :
      (registry : LabelRegistry c) (r : Resource c) {ls : List (RegisteredLabeler c)}
      → scope_of c registry r ≡ some ls
      → owns registry r ≡ owned c ls
  unfolding owns
  owns-some registry r h = rw h refl

  apply-some :
      (registry : LabelRegistry c) (r : Resource c) {ls : List (RegisteredLabeler c)}
      → scope_of c registry r ≡ some ls
      → apply c registry r ≡ apply_scope c ls r
  unfolding apply
  apply-some registry r h = rw (h, apply) refl

  apply-none :
      (registry : LabelRegistry c) (r : Resource c)
      → scope_of c registry r ≡ none
      → apply c registry r ≡ r
  unfolding apply
  apply-none registry r h = rw (h, apply) refl

  AgreeOutside-refl : (own : String → Bool) (r : Resource c) → AgreeOutside c own r r
  AgreeOutside-refl own r = record { kind = refl; id = refl; uid = refl; attrs = λ j h. refl }

  -- Applying a registry changes a resource only in the attributes that its labelers for the
  -- resource's type own: kind, id, uid and every other attribute stay.
  pub apply-AgreeOutside :
      (registry : LabelRegistry c) (r : Resource c)
      → AgreeOutside c (owns registry r) (apply c registry r) r
  apply-AgreeOutside registry r = elim (Option-cases (scope_of c registry r)) [
    | inl e ↦ rw (apply-none registry r e) (AgreeOutside-refl (owns registry r) r)
    | inr (ls, e) ↦
        rw (apply-some registry r e, owns-some registry r e) (apply_scope-AgreeOutside c ls r)
  ]

  -- Trusted labels cannot be forged: two resources that differ only in attributes that the registry
  -- owns for their type are the same after `apply`, if the type has a labeler.
  pub apply-unforgeable :
      (registry : LabelRegistry c) (r s : Resource c) {ls : List (RegisteredLabeler c)}
      → scope_of c registry r ≡ some ls
      → AgreeOutside c (owns registry r) r s
      → apply c registry r ≡ apply c registry s
  apply-unforgeable registry r s {ls} e h =
      let e' = sym (scope_of_cong registry r s h.uid) ∙ e in
      apply-some registry r e
      ∙ apply_scope_cong c ls r s (subst (λ o. AgreeOutside c o r s) (owns-some registry r e) h)
      ∙ sym (apply-some registry s e')

  -- Labelling twice is labelling once.
  pub apply-apply :
      (registry : LabelRegistry c) (r : Resource c)
      → apply c registry (apply c registry r) ≡ apply c registry r
  apply-apply registry r = elim (Option-cases (scope_of c registry r)) [
    | inl e ↦ ap (apply c registry) (apply-none registry r e)
    | inr (ls, e) ↦
        let same = apply-AgreeOutside registry r in
        let e' = scope_of_cong registry (apply c registry r) r same.uid ∙ e in
        apply-unforgeable registry (apply c registry r) r e' (
          subst (λ o. AgreeOutside c o (apply c registry r) r)
            (owns-some registry r e ∙ sym (owns-some registry (apply c registry r) e')) same)
  ]

  -- The clone made for a request is the labelled resource, and is made exactly when the registry has
  -- a labeler for its type; where it has none, `apply` leaves the resource as it is.
  pub apply_to_clone_iff :
      (registry : LabelRegistry c) (r : Resource c)
      → ((apply_to_clone_if_applicable c registry r ≡ none)
          × (scope_of c registry r ≡ none)
          × (apply c registry r ≡ r))
        ⊎ ((ls : List (RegisteredLabeler c)) × (scope_of c registry r ≡ some ls)
            × (apply_to_clone_if_applicable c registry r ≡ some (apply c registry r)))
  unfolding apply_to_clone_if_applicable
  apply_to_clone_iff registry r = elim (Option-cases (scope_of c registry r)) [
    | inl e ↦ inl (rw (e, apply_to_clone_if_applicable) refl, e, apply-none registry r e)
    | inr (ls, e) ↦ inr (ls, e, rw (apply-some registry r e, e, apply_to_clone_if_applicable) refl)
  ]
