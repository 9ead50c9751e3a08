-- ===== src/Engine/Snapshot.antt =====
-- `PolicySnapshot`, `EngineState` and their versions, of src/engine.rs.
use treetop_core.Prelude.{
  ℕ, ◌+◌, String, get_elem?, List, [], ◌∷◌, Option, none, some, leb, if◌then◌else◌,
}
use Prim.Native.String
use Prim.Native.Nat.{◌/◌, ◌%◌}
use treetop_core.Error.{Result, ok, ◌>>=◌}
use treetop_core.Cedar.{Cedar}
use treetop_core.Cedar.Authorization.{Authorization}
use treetop_core.Store.Layout.{PolicyStoreLayout}
use treetop_core.Partition.{PolicySets, monolithic, partition_policy_set}
use treetop_core.Labels.{LabelRegistry}
use treetop_core.Decision.{PermitPolicy, PolicyVersion}
use treetop_core.Loader.{
  compile_policy, compile_policy_with_schema, precompute_permit_policies,
  precompute_forbid_policy_ids,
}

pub record PolicyRevision : Type 0 where
  pub hash : String
  pub loaded_at : String

-- `u64::MAX`
abbrev pub u64_max : ℕ
u64_max = 18446744073709551615

-- `generation.saturating_add(1)`
unfoldable pub next_generation : ℕ → ℕ
next_generation g = if leb (g + 1) u64_max then g + 1 else u64_max

-- A shared pointer: the address is what `Arc::ptr_eq` compares.
pub record Arc (A : Type 0) : Type 0 where
  pub address : ℕ
  pub value : A

abbrev hex : List String
hex =
    "0" ∷ "1" ∷ "2" ∷ "3" ∷ "4" ∷ "5" ∷ "6" ∷ "7" ∷ "8" ∷ "9" ∷ "a" ∷ "b" ∷ "c" ∷ "d" ∷ "e" ∷ "f"
    ∷ []

-- `b >> 4` and `b & 0x0f` of a byte are its quotient and its remainder by 16.
abbrev digit : ℕ → String
digit n = elim (get_elem? hex n) [ none ↦ "" | some s ↦ s ]

-- Two digits for each byte of the digest.
unfoldable pub hex_text : List ℕ → String
hex_text [] = ""
hex_text (b ∷ bs) = String.◌++◌ (digit (b / 16)) (String.◌++◌ (digit (b % 16)) (hex_text bs))

module _ (c : Cedar) (a : Authorization c) where
  open a use {Schema}

  pub record PolicySnapshot : Type 0 where
    pub sets : PolicySets c
    pub revision : PolicyRevision
    pub permit_policies : List (String × PermitPolicy c a)
    pub forbid_policy_ids : List (String × String)
    pub schema : Option Schema

  abbrev pub compile : String → Option Schema → Result c.PolicySet
  compile text none = compile_policy c a text
  compile text (some schema) = compile_policy_with_schema c a text schema

  abbrev pub sets_of : c.PolicySet → Option PolicyStoreLayout → Result (PolicySets c)
  sets_of set none = ok (monolithic set)
  sets_of set (some layout) = partition_policy_set c set layout

  -- `loaded_at` is the clock's text, an argument here.
  unfoldable pub from_policy_text_with_schema_and_stores :
      String → Option Schema → Option PolicyStoreLayout → String → Result PolicySnapshot
  unfolding hex_text
  from_policy_text_with_schema_and_stores text schema layout loaded_at = do
    set ← compile text schema
    permits ← precompute_permit_policies c a set
    sets ← sets_of set layout
    ok (record {
      sets = sets;
      revision = record { hash = hex_text (a.digest text); loaded_at = loaded_at };
      permit_policies = permits;
      forbid_policy_ids = precompute_forbid_policy_ids c a set;
      schema = schema;
    })

  pub record EngineState : Type 0 where
    pub policy : Arc PolicySnapshot
    pub label_registry : Option (LabelRegistry c)
    pub generation : ℕ

  abbrev label_set_of : Option (LabelRegistry c) → Option String
  label_set_of none = none
  label_set_of (some registry) = registry.version

  unfoldable pub state_version : EngineState → PolicyVersion
  state_version s = record {
    hash = s.policy.value.revision.hash;
    loaded_at = s.policy.value.revision.loaded_at;
    label_set = label_set_of s.label_registry;
    generation = s.generation;
  }
