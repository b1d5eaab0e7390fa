-- ===== src/Tests/Observation.antt =====
-- Status runs of tool-runtime-core/src/credential_lifecycle_observation.rs.
use magic_run.Prelude.{
  ◌≡◌, refl, true, Option, none, some, List, [], ◌∷◌, ℕ, Text, codes, ok, guard, find, leb, holds,
  Text-discrete, if◌then◌else◌, byte_len, is_control,
}
use magic_run.Prelude.Sets.{eq_ignore_ascii_case}
use magic_run.Manifest.Mcp.{CliInteraction}
use magic_run.Manifest.Auth.{
  AuthKind, IdentityContract, IdentitySelector, LifecycleJsonPredicate, LifecycleJsonScalar,
  LifecycleObservedAuthState, LifecycleStatusOutputFormat, LifecycleStatusObservation,
}
use magic_run.Manifest.Equality.{
  AuthState-discrete, LifecycleObservedAuthState-discrete, LifecycleStatusOutputFormat-discrete,
  LifecycleStatusRule-discrete,
}
use magic_run.Manifest.Lifecycles.{
  check_rules, check_exit_codes, check_rule_shape, check_predicates,
  validate_lifecycle_status_observation,
}
use magic_run.Tests.Execution.{contract}
use magic_run.Credentials.Keys.{CredentialProfileBinding}
use magic_run.Credentials.Identities.{is_whitespace, validate_expected_identity}
use magic_run.Credentials.Plans.{
  CredentialLifecyclePlan, CredentialLifecycleOperation, CredentialLifecycleTarget,
  Operation-discrete,
}
use magic_run.Observation.Errors.{output_too_complex}
use magic_run.Observation.Value.{Value, Fields, count_nodes}
use magic_run.Observation.Status.{CredentialLifecycleStatusResult, is_execution_ready}
use magic_run.Observation.Json.{
  max_lifecycle_status_json_nodes, nesting_from, validate_json_nesting, nodes_loop,
  validate_json_nodes, parse_bounded_json,
}
use magic_run.Observation.Command.{
  CredentialLifecycleTermination, CredentialLifecycleCommandObservation,
}
use magic_run.Observation.Predicates.{
  consume, scalar_matches, payload_matches, predicate_matches, predicates_match,
}
use magic_run.Observation.Evaluate.{
  lists, exit_code_of, payload_of, projected, from_status, compared, rules_match,
  verify_profile_identity, verify_ready, verify_identity, evaluate_lifecycle_status,
}
use magic_run.Observation.Verified.{IsReadyRun, evaluate_lifecycle_status-IsReadyRun}
use magic_run.Observation.Exits.{Answers, evaluate_lifecycle_status-Answers}
use magic_run.Observation.Nodes.{validate_json_nodes-count_nodes}

abbrev field : Fields → Text → Option Value
field Fields.end name = none
field (Fields.entry key value rest) name =
    let later = field rest name in if holds (Text-discrete key name) then some value else later

-- The pointers of one segment.
abbrev pointer : Value → Text → Option Value
pointer (Value.object fields) (slash ∷ name) = field fields name
pointer _ path = none

-- {"active":true,"user":"ada"}
abbrev output : Value
output = Value.object (
    Fields.entry (codes "active") (Value.boolean true)
      (Fields.entry (codes "user") (Value.string (codes "ada")) Fields.end))

abbrev stdout : Text
stdout = codes "{\"active\":true,\"user\":\"ada\"}"

abbrev parse : List ℕ → Option Value
parse bytes = if holds (Text-discrete bytes stdout) then some output else none

abbrev plan_with : LifecycleStatusObservation → IdentityContract → CredentialLifecyclePlan
plan_with observed identity = record {
  contract = contract;
  operation = CredentialLifecycleOperation.status;
  target =
      CredentialLifecycleTarget.profile
        (record {
          scope = record { principal = codes "ada"; workspace = codes "main" };
          provider = codes "github";
          alias = codes "work";
          binding = CredentialProfileBinding.provider;
        })
        4 (some (codes "Ada"));
  auth_kind = AuthKind.cli_profile;
  executable = codes "gh";
  args = codes "auth" ∷ codes "status" ∷ [];
  interaction = CliInteraction.batch;
  timeout_secs = none;
  status_observation = some observed;
  identity_contract = identity;
}

abbrev run_with : ℕ → CredentialLifecycleCommandObservation
run_with code = record {
  operation = CredentialLifecycleOperation.status;
  termination = CredentialLifecycleTermination.exited code;
  stdout = stdout;
  stderr = [];
}

abbrev by_json : LifecycleStatusObservation
by_json = record {
  format = LifecycleStatusOutputFormat.json;
  rules =
      (record {
        state = LifecycleObservedAuthState.ready;
        exit_codes = 0 ∷ [];
        all =
            LifecycleJsonPredicate.equals (codes "/active") (LifecycleJsonScalar.boolean true) ∷ [];
      })
      ∷ (record {
        state = LifecycleObservedAuthState.missing;
        exit_codes = 0 ∷ 1 ∷ [];
        all = LifecycleJsonPredicate.missing (codes "/user") ∷ [];
      })
      ∷ [];
}

abbrev named : CredentialLifecyclePlan
named = plan_with by_json (
    IdentityContract.profile_expected
      (IdentitySelector.json_pointer_ascii_case_insensitive (codes "/user")))

abbrev matched : CredentialLifecycleStatusResult
matched = compared named (codes "Ada") (codes "ada") true

answered : evaluate_lifecycle_status pointer parse named (run_with 0) ≡ ok matched
unfolding evaluate_lifecycle_status Operation-discrete exit_code_of payload_of parse_bounded_json
    validate_json_nesting nesting_from validate_json_nodes nodes_loop rules_match consume
    predicates_match predicate_matches payload_matches scalar_matches projected verify_identity
    verify_ready verify_profile_identity from_status validate_expected_identity is_whitespace
    byte_len is_control Text-discrete AuthState-discrete LifecycleObservedAuthState-discrete
    eq_ignore_ascii_case
answered = refl

is_ready : is_execution_ready matched ≡ true
unfolding is_execution_ready AuthState-discrete
is_ready = refl

evaluate_lifecycle_status-IsReadyRun_example : IsReadyRun pointer parse named (run_with 0)
evaluate_lifecycle_status-IsReadyRun_example =
    evaluate_lifecycle_status-IsReadyRun pointer parse named (run_with 0) matched answered is_ready

abbrev by_exit_code : LifecycleStatusObservation
by_exit_code = record {
  format = LifecycleStatusOutputFormat.exit_code;
  rules =
      (record { state = LifecycleObservedAuthState.ready; exit_codes = 0 ∷ []; all = [] })
      ∷ (record { state = LifecycleObservedAuthState.missing; exit_codes = 1 ∷ 4 ∷ []; all = [] })
      ∷ [];
}

abbrev unnamed : CredentialLifecyclePlan
unnamed = plan_with by_exit_code IdentityContract.nothing

valid : validate_lifecycle_status_observation by_exit_code IdentityContract.nothing ≡ ok tt
unfolding validate_lifecycle_status_observation check_rules check_exit_codes check_rule_shape
    check_predicates LifecycleStatusOutputFormat-discrete LifecycleObservedAuthState-discrete
    LifecycleStatusRule-discrete
valid = refl

evaluate_lifecycle_status-Answers_example :
    Answers
      (find (lists 4) by_exit_code.rules)
      (evaluate_lifecycle_status pointer parse unnamed (run_with 4))
evaluate_lifecycle_status-Answers_example =
    evaluate_lifecycle_status-Answers pointer parse unnamed (run_with 4) by_exit_code 4 refl refl
      refl refl refl valid

validate_json_nodes-count_nodes_example :
    validate_json_nodes output
    ≡ guard (leb (count_nodes output) max_lifecycle_status_json_nodes) output_too_complex
validate_json_nodes-count_nodes_example = validate_json_nodes-count_nodes output
