-- ===== src/Json.antt =====
-- src/types/policy_json.rs: the compact JSON of policy metadata, its conversion, its equality and
-- what its `Hash` writes. Numbers are the crate's (`serde_json::Number`).
pub mod Sorted
pub mod Agreement
pub mod Conversion
use treetop_core.Prelude.{
  ℕ, ◌+◌, String, List, [], ◌∷◌, ◌++◌, Bool, true, false, ◌&&◌, ◌||◌, ◌==◌, string_eq, nat_eq, ◌≡◌,
  length,
}
use treetop_core.Prelude.Sorting.{sort, Order}

-- `Number`: its `Eq`, and the bytes that its `Hash` writes, which agree.
pub record Numbers : Type 1 where
  pub Number : Type 0
  pub same : Number → Number → Bool
  pub bytes : Number → List ℕ
  pub same-bytes : (m n : Number) → same m n ≡ true → bytes m ≡ bytes n

-- What is written to a hasher.
pub data Written : Type 0 where
  tag count : ℕ → Written
  flag : Bool → Written
  digits : List ℕ → Written
  chars : String → Written

module _ (num : Numbers) where
  open num use {Number, same, bytes}

  -- `serde_json::Value`; an object is the list of its entries, in its order of iteration.
  mutual
    pub data Value : Type 0 where
      null : Value
      bool : Bool → Value
      number : Number → Value
      string : String → Value
      array : Values → Value
      object : Fields → Value

    pub data Values : Type 0 where
      nil_values : Values
      cons_values : Value → Values → Values

    pub data Fields : Type 0 where
      nil_fields : Fields
      cons_fields : String → Value → Fields → Fields

  -- `PolicyJson` and its `Node`
  mutual
    pub data Node : Type 0 where
      null_node : Node
      bool_node : Bool → Node
      number_node : Number → Node
      string_node : String → Node
      array_node : Nodes → Node
      object_node : Entries → Node

    pub data Nodes : Type 0 where
      nil_nodes : Nodes
      cons_nodes : Node → Nodes → Nodes

    pub data Entries : Type 0 where
      nil_entries : Entries
      cons_entries : String → Node → Entries → Entries

  -- `From<Value> for PolicyJson`
  unfoldable mutual
    pub from_value : Value → Node
    from_value Value.null = null_node
    from_value (Value.bool b) = bool_node b
    from_value (Value.number n) = number_node n
    from_value (Value.string s) = string_node s
    from_value (Value.array vs) = array_node (from_values vs)
    from_value (Value.object fs) = object_node (from_fields fs)

    pub from_values : Values → Nodes
    from_values nil_values = nil_nodes
    from_values (cons_values v vs) = cons_nodes (from_value v) (from_values vs)

    pub from_fields : Fields → Entries
    from_fields nil_fields = nil_entries
    from_fields (cons_fields k v fs) = cons_entries k (from_value v) (from_fields fs)

  -- `PolicyJson::to_value`; `collect` is the crate's `Map::from_iter`.
  module _ (collect : Fields → Fields) where
    unfoldable mutual
      pub to_value : Node → Value
      to_value null_node = Value.null
      to_value (bool_node b) = Value.bool b
      to_value (number_node n) = Value.number n
      to_value (string_node s) = Value.string s
      to_value (array_node vs) = Value.array (to_values vs)
      to_value (object_node es) = Value.object (collect (to_fields es))

      pub to_values : Nodes → Values
      to_values nil_nodes = nil_values
      to_values (cons_nodes v vs) = cons_values (to_value v) (to_values vs)

      pub to_fields : Entries → Fields
      to_fields nil_entries = nil_fields
      to_fields (cons_entries k v es) = cons_fields k (to_value v) (to_fields es)

  unfoldable pub nodes_len : Nodes → ℕ
  nodes_len nil_nodes = 0
  nodes_len (cons_nodes v vs) = 1 + nodes_len vs

  unfoldable pub entries_len : Entries → ℕ
  entries_len nil_entries = 0
  entries_len (cons_entries k v es) = 1 + entries_len es

  -- The inner `any`: an entry of that key whose value passes the test.
  unfoldable pub any_entry : String → (Node → Bool) → Entries → Bool
  any_entry k test nil_entries = false
  any_entry k test (cons_entries j w fs) = (k == j && test w) || any_entry k test fs

  -- `PartialEq`, derived but for objects, whose order it ignores.
  unfoldable mutual
    pub node_eq : Node → Node → Bool
    node_eq null_node null_node = true
    node_eq (bool_node true) (bool_node true) = true
    node_eq (bool_node false) (bool_node false) = true
    node_eq (number_node m) (number_node n) = same m n
    node_eq (string_node s) (string_node t) = s == t
    node_eq (array_node vs) (array_node ws) = nodes_eq vs ws
    node_eq (object_node es) (object_node fs) =
        (entries_len es == entries_len fs) && all_entries es fs
    node_eq _ _ = false

    pub nodes_eq : Nodes → Nodes → Bool
    nodes_eq nil_nodes nil_nodes = true
    nodes_eq (cons_nodes v vs) (cons_nodes w ws) = node_eq v w && nodes_eq vs ws
    nodes_eq _ _ = false

    pub all_entries : Entries → Entries → Bool
    all_entries nil_entries fs = true
    all_entries (cons_entries k v es) fs = any_entry k (λ w. node_eq v w) fs && all_entries es fs

  -- What an entry writes: its key, and behind it what its value writes.
  abbrev pub Keyed : Type 0
  Keyed = String × List Written

  abbrev pub write_all : List Keyed → List Written
  write_all [] = []
  write_all ((k, ws) ∷ rest) = chars k ∷ (ws ++ write_all rest)

  -- `Hash`, derived but for objects, whose entries are sorted by their keys first.
  module _ (keys : Order String) where
    abbrev pub keyed_le : Keyed → Keyed → Bool
    keyed_le a b = keys.le a.0 b.0

    unfoldable mutual
      unfolding sort

      pub write_node : Node → List Written
      write_node null_node = tag 0 ∷ []
      write_node (bool_node b) = tag 1 ∷ flag b ∷ []
      write_node (number_node n) = tag 2 ∷ digits (bytes n) ∷ []
      write_node (string_node s) = tag 3 ∷ chars s ∷ []
      write_node (array_node vs) = tag 4 ∷ count (nodes_len vs) ∷ write_nodes vs
      write_node (object_node es) =
          tag 5 ∷ count (entries_len es) ∷ write_all (sort keyed_le (write_entries es))

      pub write_nodes : Nodes → List Written
      write_nodes nil_nodes = []
      write_nodes (cons_nodes v vs) = write_node v ++ write_nodes vs

      pub write_entries : Entries → List Keyed
      write_entries nil_entries = []
      write_entries (cons_entries k v es) = (k, write_node v) ∷ write_entries es
