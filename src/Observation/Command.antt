-- ===== src/Observation/Command.antt =====
-- The bounded result of a lifecycle command, of tool-runtime-core/src/credential_lifecycle_observation.rs.
use magic_run.Prelude.{ℕ, ◌+◌, ◌*◌, ◌||◌, List, Result, ok, guard, ◌>>◌, ltb, not, length}
use magic_run.Credentials.Plans.{CredentialLifecycleOperation, CredentialLifecyclePlan}
use magic_run.Observation.Error.{CredentialLifecycleObservationError}
use magic_run.Observation.Errors.{output_too_large}

abbrev pub max_lifecycle_observation_stdout_bytes : ℕ
max_lifecycle_observation_stdout_bytes = 256 * 1024

abbrev pub max_lifecycle_observation_stderr_bytes : ℕ
max_lifecycle_observation_stderr_bytes = 256 * 1024

abbrev pub max_lifecycle_observation_total_bytes : ℕ
max_lifecycle_observation_total_bytes = 384 * 1024

pub data CredentialLifecycleTermination : Type 0 where
  exited : ℕ → CredentialLifecycleTermination
  signaled timed_out cancelled spawn_failed : CredentialLifecycleTermination

pub record CredentialLifecycleCommandObservation : Type 0 where
  pub operation : CredentialLifecycleOperation
  pub termination : CredentialLifecycleTermination
  pub stdout : List ℕ
  pub stderr : List ℕ

unfoldable pub observation_new :
    CredentialLifecycleOperation
    → CredentialLifecycleTermination
    → List ℕ
    → List ℕ
    → Result CredentialLifecycleObservationError CredentialLifecycleCommandObservation
observation_new operation termination stdout stderr = do
  guard
      (not (
        ltb max_lifecycle_observation_stdout_bytes (length stdout)
        || ltb max_lifecycle_observation_stderr_bytes (length stderr)
        || ltb max_lifecycle_observation_total_bytes (length stdout + length stderr)))
      output_too_large
  ok (record { operation = operation; termination = termination; stdout = stdout; stderr = stderr })

pub data CredentialLifecycleSuccessPostcondition : Type 0 where
  evaluate_status_observation fresh_status_required : CredentialLifecycleSuccessPostcondition
  invalidate_verified_status : CredentialLifecycleSuccessPostcondition

unfoldable pub lifecycle_success_postcondition :
    CredentialLifecyclePlan → CredentialLifecycleSuccessPostcondition
lifecycle_success_postcondition plan = elim plan.operation [
  | CredentialLifecycleOperation.status ↦
      CredentialLifecycleSuccessPostcondition.evaluate_status_observation
  | CredentialLifecycleOperation.login ↦
      CredentialLifecycleSuccessPostcondition.fresh_status_required
  | CredentialLifecycleOperation.refresh ↦
      CredentialLifecycleSuccessPostcondition.fresh_status_required
  | CredentialLifecycleOperation.logout ↦
      CredentialLifecycleSuccessPostcondition.invalidate_verified_status
]
