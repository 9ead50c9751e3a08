-- ===== src/Cedar/Authorization.antt =====
-- What the engine uses of the crates `cedar_policy`, `serde_json` and `sha2`, as an interface:
-- parsing, validation, entities and the authorizer.
use treetop_core.Prelude.{ℕ, String, List, Option, Bool}
use treetop_core.Cedar.{Cedar}

-- `cedar_policy::Decision`
pub data CedarDecision : Type 0 where
  allow deny : CedarDecision

-- `Response`: the decision, and the ids of the policies that are its reason.
pub record Response : Type 0 where
  pub decision : CedarDecision
  pub reason : List String

-- `ValidationResult`, as far as it is read: whether some warning is `InvalidActionApplication`, and
-- `validation_passed`.
pub record Validation : Type 0 where
  pub has_invalid_action : Bool
  pub passed : Bool

pub record Authorization (c : Cedar) : Type 1 where
  pub Json : Type 0
  pub member : Json → String → Option Json
  pub as_str : Json → Option String
  pub parse_json_string : String → Option String
  pub to_json : c.Policy → Option Json
  pub show_policy : c.Policy → String
  pub parse_policies : String → Option c.PolicySet
  pub Schema : Type 0
  pub parse_schema : String → Option Schema
  pub validate : c.PolicySet → Schema → Validation
  pub digest : String → List ℕ
  pub CedarRequest : Type 0
  pub new_request : c.Uid → c.Uid → c.Uid → c.Context → Option Schema → Option CedarRequest
  pub Entity : Type 0
  pub with_uid : c.Uid → Entity
  pub new_entity : c.Uid → (String → Option c.Restricted) → List c.Uid → Option Entity
  pub Entities : Type 0
  pub add_entities : List Entity → Option Schema → Option Entities
  pub is_authorized : CedarRequest → c.PolicySet → Entities → Response
