-- ===== src/Decision.antt =====
-- src/types/decision.rs: decisions, their evidence and their version.
use treetop_core.Prelude.{ℕ, String, List, [], ◌∷◌, map, Option, none, some, Bool, true, false}
use treetop_core.Prelude.Sorting.{sort}
use treetop_core.Prelude.Texts.{trim, strip_prefix, strip_last, lines_from}
use treetop_core.Error.{eval_error, Result, ok, ◌>>◌, fail_if}
use treetop_core.Cedar.{Cedar}
use treetop_core.Cedar.Authorization.{Authorization, CedarDecision, allow, deny}

-- `PolicyVersion`; `generation` is a `u64`.
pub record PolicyVersion : Type 0 where
  pub hash : String
  pub loaded_at : String
  pub label_set : Option String
  pub generation : ℕ

module _ (c : Cedar) (a : Authorization c) where
  open a use {Json, member, as_str, parse_json_string}

  pub record PermitPolicy : Type 0 where
    pub literal : String
    pub json : Json
    pub annotation_id : Option String
    pub cedar_id : String

  -- An `@id` line of the literal.
  unfoldable pub id_of_line : String → Option String
  unfolding trim strip_prefix strip_last
  id_of_line line = elim (strip_prefix "@id(" (trim line)) [
    | none ↦ none
    | some value ↦ elim (strip_last b')' value) [
      | none ↦ none
      | some inner ↦ parse_json_string (trim inner)
    ]
  ]

  abbrev first_id : Option String → Option String → Option String
  first_id none rest = rest
  first_id (some id) rest = some id

  unfoldable pub id_of_lines : List String → Option String
  id_of_lines [] = none
  id_of_lines (line ∷ lines) = first_id (id_of_line line) (id_of_lines lines)

  -- The chain of `let`s on the JSON.
  unfoldable pub id_of_json : Json → Option String
  id_of_json json = elim (member json "annotations") [
    | none ↦ none
    | some annotations ↦ elim (member annotations "id") [ none ↦ none | some value ↦ as_str value ]
  ]

  unfoldable pub extract_annotation_id : String → Json → Option String
  unfolding lines_from
  extract_annotation_id literal json =
      first_id (id_of_json json) (id_of_lines (lines_from "" literal))

  unfoldable pub new_permit_policy : String → Json → String → PermitPolicy
  new_permit_policy literal json cedar_id = record {
    literal = literal;
    json = json;
    annotation_id = extract_annotation_id literal json;
    cedar_id = cedar_id;
  }

  -- `PermitPolicy::id`
  unfoldable pub id : PermitPolicy → String
  id p = elim p.annotation_id [ none ↦ p.cedar_id | some i ↦ i ]

  -- `PermitPolicies::ids`; texts are ordered as policy ids are.
  unfoldable pub ids : List PermitPolicy → List String
  unfolding id
  ids policies = sort c.id_order.le (map id policies)

  -- `DecisionDto`, which `Decision` wraps; `PermitPolicies` is a list.
  pub data Decision : Type 0 where
    allow_with : List PermitPolicy → PolicyVersion → Decision
    deny_with : PolicyVersion → Decision

  unfoldable pub is_allowed : Decision → Bool
  is_allowed (allow_with policies v) = true
  is_allowed (deny_with v) = false

  unfoldable pub version : Decision → PolicyVersion
  version (allow_with policies v) = v
  version (deny_with v) = v

  unfoldable pub permit_policies : Decision → Option (List PermitPolicy)
  permit_policies (allow_with policies v) = some policies
  permit_policies (deny_with v) = none

  pub record DecisionDiagnostics : Type 0 where
    pub decision : Decision
    pub matched_forbid_policy_ids : List String

  abbrev pub has_none : List PermitPolicy → Bool
  has_none [] = true
  has_none (p ∷ ps) = false

  unfoldable pub from_cedar : CedarDecision → List PermitPolicy → PolicyVersion → Result Decision
  from_cedar allow policies v = do
    fail_if (has_none policies) eval_error
    ok (allow_with policies v)
  from_cedar deny policies v = ok (deny_with v)
