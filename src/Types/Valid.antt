-- ===== src/Types/Valid.antt =====
-- What every identity satisfies that src/types/qualified_id.rs, user.rs and resource.rs construct,
-- parse or deserialize.
use Prim.Native.String
use text.Mathlib.TextLemmas.{append_assoc}
use treetop_core.Prelude.{
  beq_ne, ◌||◌, Option-cases, ◌⊎◌, String, List, [], ◌∷◌, ◌++◌, Option, none, some, ◌≡◌, ◌≢◌, ◌↔◌,
  refl, sym, ap, subst, ◌∙◌, arith, Bool-cases, inl, inr, ◌==◌, string_eq, eq_iff,
}
use treetop_core.Prelude.Texts.{any_code, trim}
use treetop_core.Error.{
  ok, or_fail, invalid_format, >>=-eq-ok, fail_if-eq-ok, ok-inj, or_fail-eq-ok,
}
use treetop_core.Names.{join_name, has_separator, rsplit_name}
use treetop_core.Cedar.{Cedar}
use treetop_core.Cedar.Text.{UidText}
use treetop_core.Types.Identity.{
  Kind, cedar_type, type_text, QualifiedId, new_id, validate_namespace_with_type, or_empty,
}
use treetop_core.Types.Parse.{
  CedarParts, split_string_into_cedar_parts, then_some, unquoted_parts, parts_of, is_quoting,
}

pub join_name-type_text :
    (ns : List String) (b : String) → join_name (ns ++ (b ∷ [])) ≡ type_text ns b
unfolding join_name type_text
join_name-type_text [] b = refl
join_name-type_text (s ∷ []) b = refl
join_name-type_text (s ∷ t ∷ ts) b =
    ap (λ x. String.◌++◌ s (String.◌++◌ "::" x)) (join_name-type_text (t ∷ ts) b)
    ∙ sym (
        append_assoc s (String.◌++◌ "::" (join_name (t ∷ ts))) (String.◌++◌ "::" b)
        ∙ ap (String.◌++◌ s) (append_assoc "::" (join_name (t ∷ ts)) (String.◌++◌ "::" b)))

module _ (c : Cedar) where
  open c use {
    TypeName, parse_type, Uid, uid_of, basename, namespace_components, parse_uid, type_name,
    entity_id,
  }

  pub new_id-eq-ok :
      (k : Kind) (i : String) (ns : Option (List String)) {q : QualifiedId c k}
      → new_id c k i ns ≡ ok q
      → (i ≢ "")
        × (t : TypeName) × (parse_type (type_text (or_empty ns) (cedar_type k)) ≡ some t)
        × (record { id = i; namespace = or_empty ns; uid = uid_of t i } ≡ q)
  unfolding new_id validate_namespace_with_type
  new_id-eq-ok k i ns h =
      let named = fail_if-eq-ok (i == "") invalid_format _ h in
      let (t, parses, same) =
        >>=-eq-ok (validate_namespace_with_type c k (or_empty ns)) _ named.1 in
      (ground (arith, eq_iff i ""), t, or_fail-eq-ok _ invalid_format parses, ok-inj same)

  pub new_id-ok :
      (k : Kind) (i : String) (ns : Option (List String)) (t : TypeName)
      → i ≢ ""
      → parse_type (type_text (or_empty ns) (cedar_type k)) ≡ some t
      → new_id c k i ns ≡ ok (record { id = i; namespace = or_empty ns; uid = uid_of t i })
  unfolding new_id validate_namespace_with_type
  new_id-ok k i ns t ne h = rw (beq_ne i "" ne, h) refl

  -- The id is not empty, the type parses, and the cached uid is theirs.
  unfoldable pub IsValidId : (k : Kind) → QualifiedId c k → Type 0
  unfolding type_text
  IsValidId k q =
      (q.id ≢ "")
      × (t : TypeName) × (parse_type (type_text q.namespace (cedar_type k)) ≡ some t)
      × (q.uid ≡ uid_of t q.id)

  pub new_id-IsValidId :
      (k : Kind) (i : String) (ns : Option (List String)) (q : QualifiedId c k)
      → new_id c k i ns ≡ ok q
      → IsValidId k q
  unfolding IsValidId
  new_id-IsValidId k i ns q h =
      let (ne, t, parses, same) = new_id-eq-ok k i ns h in
      subst (IsValidId k) same (ne, t, parses, refl)

  abbrev pub with_uid : (k : Kind) → String → List String → Uid → QualifiedId c k
  with_uid k i ns u = record { id = i; namespace = ns; uid = u }

  -- An identity is valid exactly when the constructor, given its parts, returns it.
  pub IsValidId-new_id :
      (k : Kind) (q : QualifiedId c k) → IsValidId k q ↔ (new_id c k q.id (some q.namespace) ≡ ok q)
  unfolding IsValidId
  IsValidId-new_id k q = (
    λ valid.
        let (ne, t, parses, same) = valid in
        new_id-ok k q.id (some q.namespace) t ne parses
        ∙ ap (λ u. ok (with_uid k q.id q.namespace u)) (sym same),
    new_id-IsValidId k q.id (some q.namespace) q,
  )

  -- What a text that is read as an identity yields: no type at all, or a type that parses.
  unfoldable pub ArePartsOf : CedarParts → Type 0
  ArePartsOf parts =
      (parts.id ≢ "")
      × (((parts.type_part ≡ none) × (parts.namespace ≡ none))
          ⊎ (text : String) × (t : TypeName) × (parse_type text ≡ some t)
            × (parts.type_part ≡ some (basename t))
            × (parts.namespace ≡ then_some (namespace_components t)))

  parts_of-ArePartsOf :
      (text : String) (t : TypeName) (i : String)
      → i ≢ ""
      → parse_type text ≡ some t
      → ArePartsOf (parts_of c t i)
  unfolding ArePartsOf
  parts_of-ArePartsOf text t i ne h = (ne, inr (text, t, h, refl, refl))

  unquoted_parts-ArePartsOf :
      (input : String) (parts : CedarParts)
      → input ≢ ""
      → unquoted_parts c input ≡ ok parts
      → ArePartsOf parts
  unfolding unquoted_parts ArePartsOf
  unquoted_parts-ArePartsOf input parts ne h = elim (Bool-cases (has_separator input)) [
    | inl qualified ↦
        let (around, split, named) =
          >>=-eq-ok (or_fail (rsplit_name input) invalid_format) _ (rw qualified at h) in
        let (sound, typed) =
          fail_if-eq-ok (around.1 == "" || any_code is_quoting around.1) invalid_format _ named in
        let (t, parsed, same) = >>=-eq-ok (or_fail (parse_type around.0) invalid_format) _ typed in
        subst ArePartsOf (ok-inj same) (
          parts_of-ArePartsOf around.0 t around.1 (ground (arith, eq_iff around.1 ""))
            (or_fail-eq-ok _ invalid_format parsed))
    | inr bare ↦
        let (sound, same) =
          fail_if-eq-ok (any_code is_quoting input) invalid_format _ (rw bare at h) in
        subst ArePartsOf (ok-inj same) (ne, inl (refl, refl))
  ]

  module _ (laws : UidText c) where
    pub split_string_into_cedar_parts-ArePartsOf :
        (s : String) (parts : CedarParts)
        → split_string_into_cedar_parts c s ≡ ok parts
        → ArePartsOf parts
    unfolding split_string_into_cedar_parts
    split_string_into_cedar_parts-ArePartsOf s parts h =
        let solid = fail_if-eq-ok (trim s == "") invalid_format _ h in
        let ne : trim s ≢ "" = ground (arith, eq_iff (trim s) "") in
        elim (Option-cases (c.parse_uid (trim s))) [
          | inl unparsed ↦ unquoted_parts-ArePartsOf (trim s) parts ne (rw unparsed at solid.1)
          | inr (uid, parsed) ↦
              let (empty, same) =
                fail_if-eq-ok (entity_id uid == "") invalid_format _ (rw parsed at solid.1) in
              let (text, typed) = laws.parsed_type (trim s) uid parsed in
              subst ArePartsOf (ok-inj same) (
                parts_of-ArePartsOf text (type_name uid) (entity_id uid)
                  (ground (arith, eq_iff (entity_id uid) "")) typed)
        ]
