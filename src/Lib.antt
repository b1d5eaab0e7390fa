-- ===== src/Lib.antt =====
-- A verification library beside MagicRun, the Rust crate tool-runtime-core that turns a tool
-- request into an explicitly authorized, bounded local execution.
--
-- The parts and their files (paths of the program from the repository's root):
--   Prelude: Boolean tests, results, lists over the native numbers, texts.
--   Manifest: the runtime contract's vocabulary (tool-runtime-core/src/manifest.rs), its derived
--     equality in `Equality`, and the validator (.../manifest_validation.rs): `Refusal` has its error,
--     `Limits`, `Bounds`, `Vocabulary`, `Commands`, `Requirements`, `Discovery`, `Lifecycles`,
--     `Injections` and `Authentication` the checks of the parts, and `Validation` their order in
--     `validate_skill_runtime_contract`. What `Url::parse` answers is an argument. `Validated` leads
--     from the whole to the parts; the laws are in `Confined`, `Sources`, `Targets`,
--     `Injected`, `Interpreters`, `Executable`, `Observed` and `Remote`.
--   Catalog: what is made of a validated contract. `Schema` and `Synthesis` have the synthesis
--     (.../manifest_synthesis.rs), `Policy` the policy contract of an MCP catalog
--     (.../mcp_catalog_policy.rs). The laws are in `Additive`, `Total`, `Synthesized`, `Schemas`,
--     `Names` and `Checkout`.
--   Execution: tool-runtime-core/src/governed_execution.rs. `Policy` has the product policy and
--     `compile`, `Request` the checks of a request's parts, `Contract` has `admit`, the intent and
--     its binding to a credential's standard input, `Terminal` the terminal states. Their laws are
--     in `Arguments`, `Directory`, `Admission`, `Ceilings` and `Binding`, and `Governed` has the way
--     from the validation to the compiled contract.
--   Coordinator: tool-runtime-core/src/governed_execution_coordinator.rs. `Evidence` has the
--     request, the evidence and `authorization_matches`, `Receipt` the audits, `Host` the answers
--     that a run is given and the calls that it makes, `Attempt` `execute_materialized` and what
--     is around it in the caught closure, `Settle` and `Execute` the rest of `execute`. A run is
--     its calls in order with its result. `Bound`, `Settling`, `Answered` and `Protocol` have
--     the laws.
--   Credentials: the keys and profiles (.../credential_profiles.rs), with the expected identities
--     in `Identities` and the laws of identifiers in `Identifiers`, the lifecycle plan (.../credential_lifecycle.rs) and the issued directories
--     (.../scoped_paths.rs).
--   Lifecycle: tool-runtime-core/src/credential_lifecycle.rs. `Compile` makes plans, `Declared`
--     says what they ask for and `Compiled` has the law.
--   Observation: tool-runtime-core/src/credential_lifecycle_observation.rs. `Command` has the
--     bounded result of a command, `Json` the bounds on its output, `Predicates` the tests of a rule
--     with their budget, `Evaluate` `evaluate_lifecycle_status` and the check of the identity, and
--     `Status` what it reports. What `serde_json::from_slice` and `Value::pointer` answer are
--     arguments. `Value` has the JSON values as the code takes them apart. The fuel of the loop over
--     a value's nodes is their limit and one, since each round counts a node. `Rules`, `Identity`
--     and `ByCode` lead to the laws in `Verified`, `Exits` and `Nodes`.
--   StatusCache: tool-runtime-core/src/credential_status_cache.rs. `State` has the map of entries,
--     `Operations` the observations, `Lookups` the lookup and the invalidations, each a function
--     to its result and the state it leaves, `Runs` their sequences. The laws are in `Entries`,
--     `Invariant`, `Tickets`, `Histories`, `Places`, `Readiness` and `Generations`. The bound of the stale
--     observations is the range of the 64-bit generation.
--   Redaction: tool-runtime-core/src/credential_materialization.rs. `Redactor` makes the redactor
--     with its index, `Scan` has the matcher and `redact`, `Segments` `redact_segments`,
--     `Streaming` the streaming redactor. A buffer is the list of its bytes, and a position in it
--     is what is left from there. The fuel of a loop is the length of its input and one, and every
--     match or emitted byte shortens what is left. `Scrub` describes a redaction without the
--     index: a byte is copied where no pattern stands, a pattern that stands is hidden. `Index`,
--     `Match`, `Leads` and `Redacted` lead from the matcher to it, `Prefix`, `Evaluate`, `Decide`,
--     `Choose`, `Stream` and `Pushes` from the streaming redactor. `Clean`, `Records`, `Limits`,
--     `Total` and `Streamed` have the laws.
--   Credentials.Registry: the constructors of metadata, states and snapshots of
--     tool-runtime-core/src/credential_profiles.rs, with the law of snapshots in `Snapshots`. A set
--     is the list of what was put into it.
--   Selection: tool-runtime-core/src/profile_selection.rs. `Request` makes the request, `Choice`
--     selects. `Selected` and `Deciding` say what is selected, `Selecting` has the law.
--   Tests: runs of the code at small inputs.
--
-- Conventions. A Rust `String` is the list of its scalar values, and its length the bytes of
-- their UTF-8 form. A u32, u64 or usize is a native number; a check that the source makes against
-- overflow is written out. `Result` and `?` are the result type of the prelude and its do blocks;
-- an error is a record with the code, the field and the message of the source. A `BTreeSet` and a
-- `BTreeMap` are the lists of their elements in order. Every other loop is a recursion on a
-- list, so no fuel is needed. Zeroizing buffers are plain values, serialization and `Display` are
-- left out.
--
-- Not modelled: process creation, the operating system jails, terminals, the file system, the
-- development binaries, JSON and YAML text. What a modelled function takes from such code is an
-- argument of its model.
pub mod Prelude
pub mod Manifest
pub mod Execution
pub mod Coordinator
pub mod Credentials
pub mod Lifecycle
pub mod Observation
pub mod StatusCache
pub mod Redaction
pub mod Selection
pub mod Catalog
mod Tests
