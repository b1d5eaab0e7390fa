-- ===== src/Execution/Binding.antt =====
-- Credential-owned standard input and the bound executable, of
-- tool-runtime-core/src/governed_execution.rs.
use magic_run.Prelude.{
  ℕ, ◌≤◌, ◌<◌, ◌≡◌, ◌≢◌, ◌↔◌, ◌∙◌, ap, subst, refl, Bool, true, false, Option, none, some, Text, ok,
  arith, length, first,
}
use magic_run.Manifest.Mcp.{RuntimeProtocol}
use magic_run.Manifest.Auth.{SkillRuntimeContract}
use magic_run.Execution.Policy.{
  GovernedExecutionPolicy, GovernedExecutionContract, compile, compile_protocol,
}
use magic_run.Execution.Request.{Bytes, GovernedExecutionRequest}
use magic_run.Execution.Contract.{GovernedExecutionIntent, admit, bind_materialized_stdin}
use magic_run.Execution.Admission.{IsStdin, admit_iff}

-- The intent that is bound to a credential's standard input.
abbrev pub IsBound : GovernedExecutionIntent → Option Bytes → GovernedExecutionIntent → Type 0
IsBound intent none bound = (intent.credential_stdin_reserved ≡ false) × (bound ≡ intent)
IsBound intent (some value) bound =
    (intent.credential_stdin_reserved ≡ true)
    × (0 < length value)
    × (length value ≤ intent.max_stdin_bytes)
    × (bound ≡ record intent { stdin = some value })

-- Binding what was materialized gives an intent exactly when either nothing was materialized and
-- no credential has reserved the standard input, which leaves the intent as it is, or a credential
-- has reserved it and the value is neither empty nor longer than the intent's ceiling; the intent
-- then differs in its standard input only.
pub bind_materialized_stdin_iff :
    (intent : GovernedExecutionIntent) (materialized : Option Bytes)
    (bound : GovernedExecutionIntent)
    → (bind_materialized_stdin intent materialized ≡ ok bound) ↔ IsBound intent materialized bound
unfolding bind_materialized_stdin
bind_materialized_stdin_iff intent none bound = (λ h. ground arith, λ h. ground arith)
bind_materialized_stdin_iff intent (some value) bound = (λ h. ground arith, λ h. ground arith)

-- The standard input that the process reads has one owner.
abbrev pub IsOwned : Bool → Option Bytes → Option Bytes → Option Bytes → ℕ → Type 0
IsOwned true requested materialized bound max =
    (requested ≡ none)
    × ((value : Bytes) × (materialized ≡ some value)
        × (bound ≡ some value)
        × (0 < length value)
        × (length value ≤ max))
IsOwned false requested materialized bound max = (materialized ≡ none) × (bound ≡ requested)

IsStdin-reserved :
    (compiled : GovernedExecutionContract) (requested : Option Bytes)
    → IsStdin compiled requested
    → compiled.credential_stdin_reserved ≡ true
    → requested ≡ none
IsStdin-reserved compiled none s r = refl
IsStdin-reserved compiled (some value) s r = cc s.0

IsOwned-stdin :
    (reserved : Bool) (requested materialized : Option Bytes)
    (intent bound : GovernedExecutionIntent)
    → intent.credential_stdin_reserved ≡ reserved
    → intent.stdin ≡ requested
    → (reserved ≡ true → requested ≡ none)
    → IsBound intent materialized bound
    → IsOwned reserved requested materialized bound.stdin intent.max_stdin_bytes
IsOwned-stdin true requested none intent bound r s u b = cc
IsOwned-stdin true requested (some v) intent bound r s u b =
    (u refl, (v, refl, ap (λ (i : GovernedExecutionIntent). i.stdin) b.3, b.1, b.2))
IsOwned-stdin false requested none intent bound r s u b =
    (refl, ap (λ (i : GovernedExecutionIntent). i.stdin) b.1 ∙ s)
IsOwned-stdin false requested (some v) intent bound r s u b = cc

-- After admission and binding, the standard input is the request's where no credential owns the
-- stream, and then none was materialized; where one does, the request brought none, and the input
-- is the materialized value, neither empty nor longer than the contract's ceiling.
pub admit-bind-IsOwned :
    (compiled : GovernedExecutionContract) (request : GovernedExecutionRequest)
    (materialized : Option Bytes) (intent bound : GovernedExecutionIntent)
    → admit compiled request ≡ ok intent
    → bind_materialized_stdin intent materialized ≡ ok bound
    → IsOwned compiled.credential_stdin_reserved request.stdin materialized bound.stdin
        compiled.max_stdin_bytes
admit-bind-IsOwned compiled request materialized intent bound a b =
    let admitted = (admit_iff compiled request intent).0 a in
    subst (IsOwned compiled.credential_stdin_reserved request.stdin materialized bound.stdin)
      (ap (λ (i : GovernedExecutionIntent). i.max_stdin_bytes) admitted.carried)
      (IsOwned-stdin compiled.credential_stdin_reserved request.stdin materialized intent bound
        (ap (λ (i : GovernedExecutionIntent). i.credential_stdin_reserved) admitted.carried)
        (ap (λ (i : GovernedExecutionIntent). i.stdin) admitted.carried)
        (IsStdin-reserved compiled request.stdin admitted.stdin)
        ((bind_materialized_stdin_iff intent materialized bound).0 b))

compile_protocol-executable :
    (protocol : RuntimeProtocol) (contract : SkillRuntimeContract)
    (policy : GovernedExecutionPolicy) (compiled : GovernedExecutionContract)
    → compile_protocol protocol contract policy ≡ ok compiled
    → first contract.requires.bins ≡ some compiled.executable
unfolding compile_protocol
compile_protocol-executable (RuntimeProtocol.cli _ _ _ _ _) contract policy compiled h =
    ground arith
compile_protocol-executable (RuntimeProtocol.mcp _ _ _) contract policy compiled h = cc

-- Whatever entrypoint a contract with several executables declares, if it is not the first of
-- them in order, the compiled contract names another executable.
pub compile-ne-entrypoint :
    (contract : SkillRuntimeContract) (policy : GovernedExecutionPolicy)
    (compiled : GovernedExecutionContract) (entrypoint : Text)
    → contract.requires.entrypoint ≡ some entrypoint
    → first contract.requires.bins ≢ some entrypoint
    → compile contract policy ≡ ok compiled
    → compiled.executable ≢ entrypoint
unfolding compile
compile-ne-entrypoint contract policy compiled entrypoint declared other h same =
    other (compile_protocol-executable contract.runtime contract policy compiled h ∙ cc same)
