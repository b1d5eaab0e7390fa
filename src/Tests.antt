-- ===== src/Tests.antt =====
-- Runs of the modelled code on small inputs.
mod Execution
mod Coordinator
mod StatusCache
mod Credentials
mod Redaction
mod Selection
mod Manifest
mod Remote
mod Catalog
mod Observation
