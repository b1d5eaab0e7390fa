-- ===== src/Manifest/Equality.antt =====
-- The derived `PartialEq` of the contract's types.
use native.Mathlib.Decide.{ℕ_discrete}
use magic_run.Manifest.Mcp.{
  CliInteraction, StdinMode, DataSensitivity, WorkingDirectoryMode, McpToolRiskClass, ApprovalClass,
}
use magic_run.Manifest.Auth.{
  InjectionTarget, AuthState, AuthKind, AuthRequirement, LifecycleStatusOutputFormat,
  LifecycleObservedAuthState, LifecycleJsonPredicate, LifecycleStatusRule, SkillRuntimeContract,
}

unfoldable pub CliInteraction-discrete : Discrete CliInteraction
CliInteraction-discrete = hlevel

unfoldable pub StdinMode-discrete : Discrete StdinMode
StdinMode-discrete = hlevel

unfoldable pub DataSensitivity-discrete : Discrete DataSensitivity
DataSensitivity-discrete = hlevel

unfoldable pub WorkingDirectoryMode-discrete : Discrete WorkingDirectoryMode
WorkingDirectoryMode-discrete = hlevel

unfoldable pub InjectionTarget-discrete : Discrete InjectionTarget
InjectionTarget-discrete = hlevel ℕ_discrete

unfoldable pub AuthState-discrete : Discrete AuthState
AuthState-discrete = hlevel

unfoldable pub AuthKind-discrete : Discrete AuthKind
AuthKind-discrete = hlevel

unfoldable pub SkillRuntimeContract-discrete : Discrete SkillRuntimeContract
SkillRuntimeContract-discrete = hlevel ℕ_discrete

unfoldable pub McpToolRiskClass-discrete : Discrete McpToolRiskClass
McpToolRiskClass-discrete = hlevel

unfoldable pub ApprovalClass-discrete : Discrete ApprovalClass
ApprovalClass-discrete = hlevel

unfoldable pub AuthRequirement-discrete : Discrete AuthRequirement
AuthRequirement-discrete = hlevel

unfoldable pub LifecycleStatusOutputFormat-discrete : Discrete LifecycleStatusOutputFormat
LifecycleStatusOutputFormat-discrete = hlevel

unfoldable pub LifecycleObservedAuthState-discrete : Discrete LifecycleObservedAuthState
LifecycleObservedAuthState-discrete = hlevel

unfoldable pub LifecycleJsonPredicate-discrete : Discrete LifecycleJsonPredicate
LifecycleJsonPredicate-discrete = hlevel ℕ_discrete

unfoldable pub LifecycleStatusRule-discrete : Discrete LifecycleStatusRule
LifecycleStatusRule-discrete = hlevel ℕ_discrete
