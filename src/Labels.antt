-- ===== src/Labels.antt =====
-- src/labels.rs: labelers derive trusted attributes of resources, each on one resource type. A
-- labeler's `target` is read once, when the registry is built; the crate `regex` enters as the test
-- that a compiled pattern makes.
pub mod Apply
pub mod Registry
pub mod Build
use treetop_core.Prelude.{
  String, List, [], ◌∷◌, ◌++◌, Option, none, some, Bool, true, false, ◌==◌, string_eq, ◌&&◌,
  if◌then◌else◌, any, contains, keep, Eq,
}
use treetop_core.Prelude.Texts.{is_blank}
use treetop_core.Prelude.Assoc.{get, put}
use treetop_core.Error.{label_config_error, Result, ok, err, ◌>>=◌, ◌>>◌, fail_if, or_fail}
use treetop_core.Cedar.{Cedar}
use treetop_core.Types.Attr.{AttrValue, AttrValues, string}
use treetop_core.Types.Attr
use treetop_core.Types.Resource.{Resource, remove, insert}

-- `LabelSetVersion::new`; a version is its text.
unfoldable pub new_version : String → Result String
new_version value = do fail_if (is_blank value) label_config_error; ok value

-- `self.version.map(LabelSetVersion::new).transpose()`
unfoldable pub checked_version : Option String → Result (Option String)
unfolding new_version
checked_version none = ok none
checked_version (some value) = do version ← new_version value; ok (some version)

-- The labels whose pattern matches, as the `collect` of `RegexLabeler::derive` builds them.
unfoldable pub matching_labels : String → List (String × (String → Bool)) → AttrValues
matching_labels value [] = Attr.nil
matching_labels value ((label, is_match) ∷ table) =
    let rest = matching_labels value table in
    if is_match value then Attr.cons (string label) rest else rest

module _ (c : Cedar) where
  open c use {TypeName, type_eq, parse_type, show_type, type_name, new_bool, new_record}

  pub record LabelTarget : Type 0 where
    pub resource_type : String
    pub attribute : String
    pub entity_type : TypeName

  unfoldable pub validate_output : String → Result (Unit {0})
  validate_output output = do
    fail_if (is_blank output) label_config_error
    fail_if (output == "id") label_config_error
    _ ← or_fail (new_record ((output, new_bool true) ∷ [])) label_config_error
    ok tt

  unfoldable pub new_target : String → String → Result LabelTarget
  unfolding validate_output
  new_target resource_type attribute = do
    t ← or_fail (parse_type resource_type) label_config_error
    validate_output attribute
    ok (record { resource_type = show_type t; attribute = attribute; entity_type = t })

  -- The derived `PartialEq`.
  abbrev pub same_target : LabelTarget → LabelTarget → Bool
  same_target a b =
      (a.resource_type == b.resource_type)
      && (a.attribute == b.attribute)
      && type_eq.beq a.entity_type b.entity_type

  -- `LabelTarget::matches`
  unfoldable pub matches : LabelTarget → Resource c → Bool
  matches target resource = type_eq.beq (type_name resource.uid) target.entity_type

  -- The trait `Labeler`.
  pub record Labeler : Type 0 where
    pub target : LabelTarget
    pub derive : Resource c → Option AttrValue

  abbrev pub remove_attr : String → Resource c → Resource c
  remove_attr a r = record r { attrs = remove a r.attrs }

  -- `if let Some(value) = … { attrs.insert(attribute, value) }`
  abbrev pub insert_derived : String → Option AttrValue → Resource c → Resource c
  insert_derived a none r = r
  insert_derived a (some v) r = record r { attrs = insert a v r.attrs }

  abbrev pub replace_attr : String → (Resource c → Option AttrValue) → Resource c → Resource c
  replace_attr a derive r =
      let cleared = remove_attr a r in insert_derived a (derive cleared) cleared

  -- `LabelerApply::apply`
  unfoldable pub apply_labeler : Labeler → Resource c → Resource c
  unfolding matches
  apply_labeler labeler r =
      if matches labeler.target r then replace_attr labeler.target.attribute labeler.derive r else r

  pub record RegexLabeler : Type 0 where
    pub target : LabelTarget
    pub field : String
    pub table : List (String × (String → Bool))

  unfoldable pub new_regex_labeler :
      LabelTarget → String → List (String × (String → Bool)) → Result RegexLabeler
  new_regex_labeler target field table = do
    fail_if (is_blank field) label_config_error
    fail_if (field == target.attribute) label_config_error
    ok (record { target = target; field = field; table = table })

  unfoldable pub derive_regex : RegexLabeler → Resource c → Option AttrValue
  unfolding matching_labels
  derive_regex labeler r = elim (r.attrs labeler.field) [
    | some (string value) ↦ some (AttrValue.set (matching_labels value labeler.table))
    | _ ↦ none
  ]

  abbrev pub regex_labeler : RegexLabeler → Labeler
  regex_labeler l = record { target = l.target; derive = derive_regex l }

  pub record RegisteredLabeler : Type 0 where
    pub target : LabelTarget
    pub labeler : Labeler

  -- `RegisteredLabeler::apply`: the scope was checked by the registry.
  unfoldable pub apply_registered : RegisteredLabeler → Resource c → Resource c
  apply_registered l r = replace_attr l.target.attribute l.labeler.derive r

  -- The two loops of `apply_scope`.
  unfoldable pub clear_scope : List RegisteredLabeler → Resource c → Resource c
  clear_scope [] r = r
  clear_scope (l ∷ ls) r = clear_scope ls (remove_attr l.target.attribute r)

  unfoldable pub derive_scope : List RegisteredLabeler → Resource c → Resource c
  unfolding apply_registered
  derive_scope [] r = r
  derive_scope (l ∷ ls) r = derive_scope ls (apply_registered l r)

  unfoldable pub apply_scope : List RegisteredLabeler → Resource c → Resource c
  unfolding clear_scope derive_scope
  apply_scope ls r = derive_scope ls (clear_scope ls r)

  pub record LabelRegistry : Type 0 where
    pub version : Option String
    pub scopes : List (TypeName × List RegisteredLabeler)

  -- The labelers of a resource's type.
  abbrev pub scope_of : LabelRegistry → Resource c → Option (List RegisteredLabeler)
  scope_of registry r = get ⦃e = type_eq⦄ (type_name r.uid) registry.scopes

  unfoldable pub apply_to_clone_if_applicable : LabelRegistry → Resource c → Option (Resource c)
  unfolding apply_scope get
  apply_to_clone_if_applicable registry r = elim (scope_of registry r) [
    | none ↦ none
    | some labelers ↦ some (apply_scope labelers r)
  ]

  -- `LabelRegistry::apply`
  unfoldable pub apply : LabelRegistry → Resource c → Resource c
  unfolding apply_scope get
  apply registry r = elim (scope_of registry r) [
    | none ↦ r
    | some labelers ↦ apply_scope labelers r
  ]

  pub record LabelRegistryBuilder : Type 0 where
    pub version : Option String
    pub labelers : List Labeler

  unfoldable pub add_labeler : Labeler → LabelRegistryBuilder → LabelRegistryBuilder
  add_labeler l b = record b { labelers = b.labelers ++ l ∷ [] }

  abbrev pub or_nil : Option (List RegisteredLabeler) → List RegisteredLabeler
  or_nil none = []
  or_nil (some ls) = ls

  abbrev pub registered : Labeler → RegisteredLabeler
  registered l = record { target = l.target; labeler = l }

  -- `scopes.entry(type).or_default().push(…)`
  unfoldable pub push_scope :
      Labeler → List (TypeName × List RegisteredLabeler) → List (TypeName × List RegisteredLabeler)
  unfolding get put
  push_scope l scopes =
      put ⦃e = type_eq⦄ l.target.entity_type
        (or_nil (get ⦃e = type_eq⦄ l.target.entity_type scopes) ++ registered l ∷ []) scopes

  -- The loop of `build`; `targets` are the owned targets so far.
  unfoldable pub register_all :
      List Labeler
      → List LabelTarget
      → List (TypeName × List RegisteredLabeler)
      → Result (List (TypeName × List RegisteredLabeler))
  register_all [] targets scopes = ok scopes
  register_all (l ∷ ls) targets scopes = do
    fail_if (any (same_target l.target) targets) label_config_error
    register_all ls (l.target ∷ targets) (push_scope l scopes)

  unfoldable pub build : LabelRegistryBuilder → Result LabelRegistry
  build b = do
    version ← checked_version b.version
    scopes ← register_all b.labelers [] []
    ok (record { version = version; scopes = scopes })
