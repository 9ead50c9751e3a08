-- ===== src/Types/RoundTrip.antt =====
-- Printing an identity and reading it back, for the `Display` and the `FromStr` of groups, actions
-- (src/types/group.rs, action.rs) and resources (src/types/resource.rs).
use treetop_core.Prelude.{
  String, List, [], ◌∷◌, ◌++◌, Option, some, ◌≡◌, ◌≢◌, inl, inr, refl, sym, ap, subst, ◌∙◌, arith,
  ◌==◌, string_eq, eq_iff, beq_ne, beq_self, false,
}
use treetop_core.Error.{
  ok, or_fail, invalid_format, >>=-eq-ok, fail_if-eq-ok, ok-inj, or_fail-eq-ok,
}
use treetop_core.Names.{join_name, split_name}
use treetop_core.Names.Join.{join_name-split_name, split_name-join_name, ArePlain}
use treetop_core.Cedar.{Cedar}
use treetop_core.Cedar.Text.{UidText, uid_text}
use treetop_core.Types.Identity.{
  Kind, user_kind, group_kind, action_kind, cedar_type, type_text, QualifiedId, new_id, or_empty,
}
use treetop_core.Types.Resource.{Resource, new_resource}
use treetop_core.Types.Parse.{
  CedarParts, split_string_into_cedar_parts, id_from_str, fmt_qualified, then_some, parts_of,
  is_other, resource_from_str, show_resource,
}
use treetop_core.Types.Quoted.{trim-uid_text_alone}
use treetop_core.Types.Valid.{
  join_name-type_text, with_uid, IsValidId, new_id-IsValidId, new_id-eq-ok, new_id-ok, ArePartsOf,
  split_string_into_cedar_parts-ArePartsOf,
}

pub snoc-inj :
    {A : Type 0} (as' bs : List A) {a b : A}
    → as' ++ (a ∷ []) ≡ bs ++ (b ∷ [])
    → (as' ≡ bs) × (a ≡ b)
snoc-inj [] [] h = (refl, ground arith)
snoc-inj [] (b ∷ []) h = absurd (ground arith)
snoc-inj [] (b ∷ c ∷ bs) h = absurd (ground arith)
snoc-inj (a ∷ []) [] h = absurd (ground arith)
snoc-inj (a ∷ c ∷ as') [] h = absurd (ground arith)
snoc-inj {A} (x ∷ as') (y ∷ bs) {a} {b} h =
    let rest = snoc-inj as' bs {a = a} {b = b} (cc h) in
    let first : x ≡ y = cc h in (cc (first, rest.0), rest.1)

pub or_empty-then_some : (ss : List String) → or_empty (then_some ss) ≡ ss
or_empty-then_some [] = refl
or_empty-then_some (s ∷ ss) = refl

-- The segments of the namespace and the kind are what the type's text splits into.
unfoldable pub SplitsBack : List String → String → Type 0
unfolding type_text
SplitsBack ns name = split_name (type_text ns name) ≡ ns ++ (name ∷ [])

ArePlain-snoc : (ns : List String) (k : Kind) → ArePlain ns → ArePlain (ns ++ (cedar_type k ∷ []))
unfolding ArePlain
ArePlain-snoc [] user_kind h = (refl, tt)
ArePlain-snoc [] group_kind h = (refl, tt)
ArePlain-snoc [] action_kind h = (refl, tt)
ArePlain-snoc (s ∷ ns) k h = (h.0, ArePlain-snoc ns k h.1)

pub ArePlain-SplitsBack : (ns : List String) (k : Kind) → ArePlain ns → SplitsBack ns (cedar_type k)
unfolding SplitsBack
ArePlain-SplitsBack [] k plain =
    ap split_name (sym (join_name-type_text [] (cedar_type k)))
    ∙ split_name-join_name (cedar_type k) [] (ArePlain-snoc [] k plain)
ArePlain-SplitsBack (s ∷ ns) k plain =
    ap split_name (sym (join_name-type_text (s ∷ ns) (cedar_type k)))
    ∙ split_name-join_name s (ns ++ (cedar_type k ∷ [])) (ArePlain-snoc (s ∷ ns) k plain)

module _ (c : Cedar) (laws : UidText c) where
  open c use {TypeName, parse_type, Uid, uid_of, basename, namespace_components, escaped, show_uid}

  -- The text of a type is that of its components.
  pub type_text-components :
      (s : String) (t : TypeName)
      → parse_type s ≡ some t
      → type_text (namespace_components t) (basename t) ≡ s
  type_text-components s t h =
      sym (join_name-type_text (namespace_components t) (basename t))
      ∙ ap join_name (sym (laws.type_segments s t h))
      ∙ join_name-split_name s

  -- A printed uid is read as its parts.
  pub split_string_into_cedar_parts-uid_text :
      (s : String) (t : TypeName) (i : String)
      → parse_type s ≡ some t
      → i ≢ ""
      → split_string_into_cedar_parts c (uid_text s (escaped i)) ≡ ok (parts_of c t i)
  unfolding split_string_into_cedar_parts
  split_string_into_cedar_parts-uid_text s t i h ne =
      let same =
        trim-uid_text_alone s (escaped i) (laws.type_path s t h) (laws.type_nonempty s t h) in
      rw
        (
          same.0,
          beq_ne (uid_text s (escaped i)) "" same.1,
          laws.parse_uid_text s t i h,
          c.entity_id-uid_of t i,
          c.type_name-uid_of t i,
          beq_ne i "" ne,
        )
        refl

  pub id_from_str-uid_text :
      (k : Kind) (ns : List String) (t : TypeName) (i : String)
      → i ≢ ""
      → parse_type (type_text ns (cedar_type k)) ≡ some t
      → SplitsBack ns (cedar_type k)
      → id_from_str c k (uid_text (type_text ns (cedar_type k)) (escaped i))
        ≡ ok (record { id = i; namespace = ns; uid = uid_of t i })
  unfolding id_from_str SplitsBack
  id_from_str-uid_text k ns t i ne h back =
      let text = type_text ns (cedar_type k) in
      let (same, named) =
        snoc-inj (namespace_components t) ns (sym (laws.type_segments text t h) ∙ back) in
      rw
        (split_string_into_cedar_parts-uid_text text t i h ne, named, beq_self (cedar_type k), same)
        (new_id-ok c k i (then_some ns) t ne (rw (or_empty-then_some ns) h)
          ∙ rw (or_empty-then_some ns) refl)

  -- What is printed of a valid identity is read as that identity.
  pub id_from_str-fmt_qualified :
      (k : Kind) (q : QualifiedId c k)
      → IsValidId c k q
      → SplitsBack q.namespace (cedar_type k)
      → id_from_str c k (fmt_qualified c q) ≡ ok q
  unfolding fmt_qualified IsValidId
  id_from_str-fmt_qualified k q valid back =
      let (ne, t, parses, same) = valid in
      ap (id_from_str c k)
        (ap show_uid same ∙ laws.show_uid_text (type_text q.namespace (cedar_type k)) t q.id parses)
      ∙ id_from_str-uid_text k q.namespace t q.id ne parses back
      ∙ ap (λ u. ok (with_uid c k q.id q.namespace u)) (sym same)

  ArePartsOf-SplitsBack :
      (k : Kind) (parts : CedarParts)
      → ArePartsOf c parts
      → is_other c parts.type_part (cedar_type k) ≡ false
      → SplitsBack (or_empty parts.namespace) (cedar_type k)
  unfolding ArePartsOf SplitsBack ArePlain
  ArePartsOf-SplitsBack k parts of_parts h = elim of_parts.1 [
    | inl bare ↦ rw (bare.1) (ArePlain-SplitsBack [] k tt)
    | inr (text, t, parses, kind, ns) ↦
        let own : is_other c (some (basename t)) (cedar_type k) ≡ false = rw kind at h in
        let named : basename t ≡ cedar_type k =
          ground (arith, eq_iff (basename t) (cedar_type k)) in
        rw (ns, or_empty-then_some (namespace_components t))
          (ap (λ n. split_name (type_text (namespace_components t) n)) (sym named)
            ∙ ap split_name (type_text-components text t parses)
            ∙ laws.type_segments text t parses
            ∙ ap (λ n. namespace_components t ++ (n ∷ [])) named)
  ]

  -- What is read is valid, and its namespace is split at every separator.
  pub id_from_str-IsValidId :
      (k : Kind) (s : String) (q : QualifiedId c k)
      → id_from_str c k s ≡ ok q
      → IsValidId c k q × SplitsBack q.namespace (cedar_type k)
  unfolding id_from_str
  id_from_str-IsValidId k s q h =
      let (parts, read, rest) = >>=-eq-ok (split_string_into_cedar_parts c s) _ h in
      let (own, made) =
        fail_if-eq-ok (is_other c parts.type_part (cedar_type k)) invalid_format _ rest in
      let (_, _, _, same) = new_id-eq-ok c k parts.id parts.namespace made in
      (
        new_id-IsValidId c k parts.id parts.namespace q made,
        subst (λ (x : QualifiedId c k). SplitsBack x.namespace (cedar_type k)) same
            (ArePartsOf-SplitsBack k parts
              (split_string_into_cedar_parts-ArePartsOf c laws s parts read) own),
      )

  -- Printing what was read and reading it again gives the same identity.
  pub id_from_str_again :
      (k : Kind) (s : String) (q : QualifiedId c k)
      → id_from_str c k s ≡ ok q
      → id_from_str c k (fmt_qualified c q) ≡ ok q
  id_from_str_again k s q h =
      let (valid, back) = id_from_str-IsValidId k s q h in id_from_str-fmt_qualified k q valid back

  -- What the constructor returns is read back from its printed form.
  pub id_from_str-new_id :
      (k : Kind) (i : String) (ns : Option (List String)) (q : QualifiedId c k)
      → new_id c k i ns ≡ ok q
      → ArePlain q.namespace
      → id_from_str c k (fmt_qualified c q) ≡ ok q
  id_from_str-new_id k i ns q h plain =
      id_from_str-fmt_qualified k q (new_id-IsValidId c k i ns q h)
        (ArePlain-SplitsBack q.namespace k plain)

  -- A resource without attributes is read back from its printed form, exactly.
  pub resource_from_str-show_resource :
      (kind i : String) (r : Resource c)
      → new_resource c kind i ≡ ok r
      → resource_from_str c (show_resource c r) ≡ ok r
  unfolding new_resource resource_from_str show_resource
  resource_from_str-show_resource kind i r h =
      let (named, typed) = fail_if-eq-ok (i == "") invalid_format _ h in
      let (t, parsed, same) = >>=-eq-ok (or_fail (parse_type kind) invalid_format) _ typed in
      let parses = or_fail-eq-ok (parse_type kind) invalid_format parsed in
      let ne : i ≢ "" = ground (arith, eq_iff i "") in
      subst (λ (x : Resource c). resource_from_str c (show_resource c x) ≡ ok x) (ok-inj same)
        (rw
          (
            split_string_into_cedar_parts-uid_text kind t i parses ne,
            or_empty-then_some (namespace_components t),
            type_text-components kind t parses,
            beq_ne i "" ne,
            parses,
          )
          refl)
