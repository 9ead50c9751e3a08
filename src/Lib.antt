-- ===== src/Lib.antt =====
-- Treetop-core, the policy engine over Cedar: src/ of the repository, as definitions and theorems.
-- The program. A `PolicyEngine` (src/engine.rs) holds one immutable state behind an atomically
-- swapped pointer: the compiled policies (src/loader.rs), the label registry (src/labels.rs) and a
-- generation. A request (src/types) is routed to a policy store (src/policy_store.rs), its
-- resource is labelled, and Cedar's authorizer decides; the decision (src/types/decision.rs)
-- carries its evidence and the state's version. Listings (src/query.rs, src/policy_match.rs,
-- src/types/user_policies.rs) name the policies whose scope matches.
-- Files. Prelude: shared names, tests, lists, maps, sorting, texts. Error: src/error.rs and
-- results. Cedar: the crate `cedar_policy` as an interface (Cedar/Syntax its enums, Cedar/Text
-- what its texts of types and uids are, Cedar/Authorization the authorizer, validation and
-- serde_json); a model takes a value of it and knows its fields only. Names: `A::B` names, split
-- and joined. Types: src/types, with Types/Identity, Types/Attr and Types/Resource the values and
-- their constructors, Types/Scan the search for the groups of a user's text, Types/Parse the
-- readers and printers, Types/CedarType the types by name, and beside them the modules of their
-- round trips (Quoted, GroupText, RoundTrip, UserText) and validity (Valid, Users). Store:
-- src/policy_store.rs, with Store/Router the namespace trie, Store/Layout layouts and routing,
-- Store/Assignment the stores of a policy, with Store/Assignment/Occurs the names that occur in
-- it. Partition: `PolicySets` and `partition_policy_set` of src/engine.rs. Labels: src/labels.rs.
-- Query: src/query.rs and src/types/entity_uid.rs. Match: src/policy_match.rs. Listing:
-- src/types/user_policies.rs and the listings of src/engine.rs. Decision, Loader, Metrics: the
-- files of those names. Json: src/types/policy_json.rs. Engine: src/engine.rs, with
-- Engine/Snapshot the state, Engine/Evaluate evaluation, Engine/Publish publication by threads,
-- Engine/Session the entry points and the validation modes, Engine/Frozen sessions. Tests:
-- concrete instances, and runs.
-- State and operations. A method that changes an object is a function from the old value to the
-- new. A hash map is an association list or a function, a hash set is a list of which only
-- membership is read. Loops are recursion on the list or text that they walk, so no fuel is
-- needed. Publication is a step relation: a thread's step is one access to the shared cell,
-- compare-and-swap included; an `rcu` is the one step in which its swap succeeds, its retries
-- being left out; and an `Arc` is an address with its value, no address being given twice. A sink
-- is its callbacks over its own state, each of which may panic; what calls one returns or unwinds.
-- A `usize` has 64 bits where the code checks it; the generation saturates at `u64::MAX`.
-- Not modelled: message texts, the serde formats and OpenAPI implementations, the global cell of
-- the current sink, floating-point timings, timers, tracing, build information, benchmarks. The
-- clock is an argument.
mod Prelude
pub mod Error
pub mod Cedar
pub mod Names
pub mod Types
pub mod Store
pub mod Partition
pub mod Labels
pub mod Query
pub mod Match
pub mod Listing
pub mod Decision
pub mod Loader
pub mod Metrics
pub mod Json
pub mod Engine
mod Tests
