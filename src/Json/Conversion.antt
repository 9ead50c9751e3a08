-- ===== src/Json/Conversion.antt =====
-- The conversions of src/types/policy_json.rs lose nothing.
use treetop_core.Prelude.{◌≡◌, refl, ap, ◌∙◌}
use treetop_core.Json.{
  Numbers, Value, Values, Fields, null, bool, number, string, array, object, nil_values,
  cons_values, nil_fields, cons_fields, from_value, from_values, from_fields, to_value, to_values,
  to_fields,
}

-- `collect` rebuilds a map from the entries that it delivers.
module _ (num : Numbers) (collect : Fields num → Fields num) (IsMap : Fields num → Type 0)
    (collect_map : (fs : Fields num) → IsMap fs → collect fs ≡ fs) where
  -- Every object of the value is a map.
  unfoldable mutual
    pub HasMaps : Value num → Type 0
    HasMaps null = Unit
    HasMaps (bool b) = Unit
    HasMaps (number n) = Unit
    HasMaps (string s) = Unit
    HasMaps (array vs) = AllHaveMaps vs
    HasMaps (object fs) = IsMap fs × FieldsHaveMaps fs

    pub AllHaveMaps : Values num → Type 0
    AllHaveMaps nil_values = Unit
    AllHaveMaps (cons_values v vs) = HasMaps v × AllHaveMaps vs

    pub FieldsHaveMaps : Fields num → Type 0
    FieldsHaveMaps nil_fields = Unit
    FieldsHaveMaps (cons_fields k v fs) = HasMaps v × FieldsHaveMaps fs

  mutual
    unfolding from_value to_value HasMaps

    same_value : (v : Value num) → HasMaps v → to_value num collect (from_value num v) ≡ v
    same_value null h = refl
    same_value (bool b) h = refl
    same_value (number n) h = refl
    same_value (string s) h = refl
    same_value (array vs) h = ap array (same_values vs h)
    same_value (object fs) h =
        ap (λ x. object (collect x)) (same_fields fs h.1) ∙ ap object (collect_map fs h.0)

    same_values :
        (vs : Values num) → AllHaveMaps vs → to_values num collect (from_values num vs) ≡ vs
    same_values nil_values h = refl
    same_values (cons_values v vs) h =
        ap (λ x. cons_values x (to_values num collect (from_values num vs))) (same_value v h.0)
        ∙ ap (cons_values v) (same_values vs h.1)

    same_fields :
        (fs : Fields num) → FieldsHaveMaps fs → to_fields num collect (from_fields num fs) ≡ fs
    same_fields nil_fields h = refl
    same_fields (cons_fields k v fs) h =
        ap (λ x. cons_fields k x (to_fields num collect (from_fields num fs))) (same_value v h.0)
        ∙ ap (cons_fields k v) (same_fields fs h.1)

  -- A value that is stored and materialized again is the same value, where its objects are maps.
  pub to_value-from_value :
      (v : Value num) → HasMaps v → to_value num collect (from_value num v) ≡ v
  to_value-from_value v h = same_value v h
