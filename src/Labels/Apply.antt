-- ===== src/Labels/Apply.antt =====
-- Labels cannot be forged: what a registry leaves on a resource depends on no owned attribute of its
-- input.
use treetop_core.Prelude.{
  String, List, [], ◌∷◌, Option, none, Bool, false, ◌==◌, string_eq, ◌≡◌, refl, arith, Option-cases,
  inl, inr, ◌∙◌, sym, ap, fun_ext, if◌then◌else◌, any,
}
use treetop_core.Cedar.{Cedar}
use treetop_core.Types.Attr.{AttrValue}
use treetop_core.Types.Resource.{Resource, remove, insert}
use treetop_core.Labels.{
  RegisteredLabeler, remove_attr, replace_attr, apply_registered, clear_scope, derive_scope,
  apply_scope,
}

module _ (c : Cedar) where
  -- Some labeler of the list owns the attribute.
  abbrev pub owned : List (RegisteredLabeler c) → String → Bool
  owned ls j = any (λ (l : RegisteredLabeler c). l.target.attribute == j) ls

  -- Two resources that differ at most in the attributes for which `own` holds.
  pub record AgreeOutside (own : String → Bool) (r s : Resource c) : Type 0 where
    pub kind : r.kind ≡ s.kind
    pub id : r.id ≡ s.id
    pub uid : r.uid ≡ s.uid
    pub attrs : (j : String) → own j ≡ false → r.attrs j ≡ s.attrs j

  Resource-ext :
      {r s : Resource c} → r.kind ≡ s.kind → r.id ≡ s.id → r.attrs ≡ s.attrs → r.uid ≡ s.uid → r ≡ s
  Resource-ext k n a u = λ i. record { kind = k i; id = n i; attrs = a i; uid = u i }

  clear_scope-attrs :
      (ls : List (RegisteredLabeler c)) (r : Resource c) (j : String)
      → (clear_scope c ls r).attrs j ≡ (if owned ls j then none else r.attrs j)
  unfolding clear_scope remove
  clear_scope-attrs [] r j = refl
  clear_scope-attrs (l ∷ ls) r j =
      ground (arith, clear_scope-attrs ls (remove_attr c l.target.attribute r) j)

  clear_scope-fields :
      (ls : List (RegisteredLabeler c)) (r : Resource c)
      → ((clear_scope c ls r).kind ≡ r.kind)
        × ((clear_scope c ls r).id ≡ r.id)
        × ((clear_scope c ls r).uid ≡ r.uid)
  unfolding clear_scope
  clear_scope-fields [] r = (refl, refl, refl)
  clear_scope-fields (l ∷ ls) r = clear_scope-fields ls (remove_attr c l.target.attribute r)

  replace_attr-AgreeOutside :
      (a : String) (derive : Resource c → Option AttrValue) (r : Resource c)
      → AgreeOutside (λ j. a == j) (replace_attr c a derive r) r
  unfolding remove insert
  replace_attr-AgreeOutside a derive r = elim (Option-cases (derive (remove_attr c a r))) [
    | inl e ↦ rw e (record { kind = refl; id = refl; uid = refl; attrs = λ j h. ground arith })
    | inr (v, e) ↦ rw e (record { kind = refl; id = refl; uid = refl; attrs = λ j h. ground arith })
  ]

  derive_scope-AgreeOutside :
      (ls : List (RegisteredLabeler c)) (r : Resource c)
      → AgreeOutside (owned ls) (derive_scope c ls r) r
  unfolding derive_scope
  derive_scope-AgreeOutside [] r = record {
    kind = refl;
    id = refl;
    uid = refl;
    attrs = λ j h. refl;
  }
  derive_scope-AgreeOutside (l ∷ ls) r =
      let once = apply_registered c l r in
      let one = replace_attr-AgreeOutside l.target.attribute l.labeler.derive r in
      let rest = derive_scope-AgreeOutside ls once in
      record {
        kind = rest.kind ∙ one.kind;
        id = rest.id ∙ one.id;
        uid = rest.uid ∙ one.uid;
        attrs = λ j h. rest.attrs j (ground arith) ∙ one.attrs j (ground arith);
      }

  -- A scope changes nothing but the attributes that it owns.
  pub apply_scope-AgreeOutside :
      (ls : List (RegisteredLabeler c)) (r : Resource c)
      → AgreeOutside (owned ls) (apply_scope c ls r) r
  unfolding apply_scope
  apply_scope-AgreeOutside ls r =
      let cleared = clear_scope-fields ls r in
      let derived = derive_scope-AgreeOutside ls (clear_scope c ls r) in
      record {
        kind = derived.kind ∙ cleared.0;
        id = derived.id ∙ cleared.1;
        uid = derived.uid ∙ cleared.2;
        attrs = λ j h. derived.attrs j h ∙ clear_scope-attrs ls r j ∙ rw h;
      }

  -- Resources that agree outside a scope's attributes are labelled alike.
  pub apply_scope_cong :
      (ls : List (RegisteredLabeler c)) (r s : Resource c)
      → AgreeOutside (owned ls) r s
      → apply_scope c ls r ≡ apply_scope c ls s
  unfolding apply_scope
  apply_scope_cong ls r s h =
      let fr = clear_scope-fields ls r in
      let fs = clear_scope-fields ls s in
      ap (derive_scope c ls) (
        Resource-ext {r = clear_scope c ls r} {s = clear_scope c ls s} (fr.0 ∙ h.kind ∙ sym fs.0)
          (fr.1 ∙ h.id ∙ sym fs.1)
          (fun_ext
            λ j. ground (arith, clear_scope-attrs ls r j, clear_scope-attrs ls s j, h.attrs j))
          (fr.2 ∙ h.uid ∙ sym fs.2))
