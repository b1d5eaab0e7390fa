-- ===== src/Manifest/Mcp.antt =====
-- The protocols, limits and MCP policies of tool-runtime-core/src/manifest.rs.
use magic_run.Prelude.{ℕ, Bool, Option, List, Text}

pub data CliInteraction : Type 0 where
  batch pty : CliInteraction

pub data StdinMode : Type 0 where
  denied optional required : StdinMode

pub data DataSensitivity : Type 0 where
  public private secret : DataSensitivity

pub record StdinContract : Type 0 where
  pub mode : StdinMode
  pub sensitivity : DataSensitivity

pub data WorkingDirectoryMode : Type 0 where
  denied workspace output_root : WorkingDirectoryMode

pub record WorkingDirectoryContract : Type 0 where
  pub mode : WorkingDirectoryMode

-- `timeout_secs` is a u32, the others are u64.
pub record RuntimeLimits : Type 0 where
  pub timeout_secs : Option ℕ
  pub stdin_bytes : Option ℕ
  pub stdout_bytes : Option ℕ
  pub stderr_bytes : Option ℕ
  pub memory_bytes : Option ℕ

pub data McpTransport : Type 0 where
  stdio : Text → List Text → McpTransport
  streamable_http : Text → McpTransport

pub data ApprovalClass : Type 0 where
  ordinary conditional_external_side_effect delegated_workspace_write : ApprovalClass
  native_ui_control commerce_checkout : ApprovalClass

pub record McpOAuthConnectionPolicy : Type 0 where
  pub authorization_issuer : Text
  pub scopes : List Text

pub record McpJsonBooleanCondition : Type 0 where
  pub pointer : Text
  pub equals : Bool

pub data McpMoneyUnit : Type 0 where
  major minor : McpMoneyUnit

pub record McpCommercePolicy : Type 0 where
  pub commodity : Text
  pub resource_scope : Text
  pub required_resource_authority : Text
  pub amount_parameter : Text
  pub final_tools : List Text
  pub conditional_final_tools : List (Text × McpJsonBooleanCondition)
  pub checkout_name_terms : List Text
  pub cart_name_terms : List Text
  pub cart_read_verb_terms : List Text
  pub total_field_priority : List Text
  pub cart_amount_unit : McpMoneyUnit
  pub absolute_tolerance_minor : ℕ
  pub percentage_tolerance_bps : ℕ
  pub max_order_minor : Option ℕ
  pub allow_cartless_checkout : Bool
  pub cartless_endpoint_aliases : List Text
  pub allow_unverified_cart : Bool

pub data McpToolRiskClass : Type 0 where
  unclassified read_only external_side_effect : McpToolRiskClass
  workspace_write native_ui_control commerce : McpToolRiskClass

pub record McpToolPolicy : Type 0 where
  pub risk : McpToolRiskClass
  pub trusted_description : Option Text
  pub additional_approvals : List ApprovalClass
  pub additional_required_grants : List Text
  pub additional_resource_scopes : List Text
  pub additional_required_resource_authorities : List Text

pub record McpDiscoveryPolicy : Type 0 where
  pub namespace : Option Text
  pub allow_tools : List Text
  pub deny_tools : List Text
  pub tool_policies : List (Text × McpToolPolicy)
  pub endpoint_aliases : List (Text × Text)
  pub default_endpoint_alias : Option Text
  pub oauth : Option McpOAuthConnectionPolicy
  pub commerce_policy : Option McpCommercePolicy

pub data RuntimeProtocol : Type 0 where
  cli :
      List Text
      → CliInteraction
      → StdinContract
      → WorkingDirectoryContract
      → RuntimeLimits
      → RuntimeProtocol
  mcp : McpTransport → McpDiscoveryPolicy → RuntimeLimits → RuntimeProtocol
