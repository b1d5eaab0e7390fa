-- ===== src/Manifest.antt =====
-- The declarative runtime contract of tool-runtime-core/src/manifest.rs and its ceilings. A
-- `BTreeSet` is the list of its elements in order, a `BTreeMap` the list of its entries in order.
pub mod Mcp
pub mod Auth
pub mod Equality
pub mod Refusal
pub mod Limits
pub mod Vocabulary
pub mod Bounds
pub mod Commands
pub mod Requirements
pub mod Discovery
pub mod Lifecycles
pub mod Injections
pub mod Authentication
pub mod Validation
pub mod Validated
pub mod Confined
pub mod Sources
pub mod Targets
pub mod Injected
pub mod Interpreters
pub mod Executable
pub mod Observed
pub mod Remote
