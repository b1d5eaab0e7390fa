-- ===== src/Catalog.antt =====
-- The catalog of tool-runtime-core/src/manifest_synthesis.rs and its MCP policies, of
-- tool-runtime-core/src/mcp_catalog_policy.rs.
pub mod Schema
pub mod Synthesis
pub mod Policy
pub mod Names
pub mod Additive
pub mod Total
pub mod Synthesized
pub mod Schemas
pub mod Checkout
