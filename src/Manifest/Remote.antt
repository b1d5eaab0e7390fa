-- ===== src/Manifest/Remote.antt =====
-- What tool-runtime-core/src/manifest_validation.rs lets through of a contract whose transport is a
-- remote one.
use magic_run.Prelude.{
  ◌≡◌, ◌⊎◌, ◌↔◌, inl, inr, refl, subst, Bool, true, false, ◌&&◌, not, Option, none, some, List, [],
  ◌∷◌, Text, codes, ok, err, arith, is_some, holds, holds→, →holds, Text-discrete, All, All-map,
  Bool-cases,
}
use magic_run.Prelude.Sets.{is_nil}
use magic_run.Manifest.Refusal.{Checked, for_each-All}
use magic_run.Manifest.Mcp.{McpTransport, McpDiscoveryPolicy, RuntimeLimits, RuntimeProtocol}
use magic_run.Manifest.Auth.{AuthKind, RuntimeRequirements, AuthContract, SkillRuntimeContract}
use magic_run.Manifest.Equality.{AuthKind-discrete}
use magic_run.Manifest.Requirements.{check_process}
use magic_run.Manifest.Discovery.{
  Url, is_loopback_host, check_url, passes, validate_mcp_endpoint, check_alias,
  validate_mcp_discovery,
}
use magic_run.Manifest.Injections.{validate_injections}
use magic_run.Manifest.Authentication.{is_kind, compatible, validate_auth}
use magic_run.Manifest.Validation.{
  executable_of, check_transport, validate_runtime, validate_skill_runtime_contract,
}
use magic_run.Manifest.Validated.{process-checked, runtime-validated, auth-validated, auth-parts}

-- A URL that names a host, carries no credentials and no fragment, and is reached over TLS or
-- inside the machine.
pub record IsSecureUrl (url : Url) : Type 0 where
  pub hosted : is_some url.host ≡ true
  pub no_username : is_nil url.username ≡ true
  pub no_password : is_some url.password ≡ false
  pub no_fragment : is_some url.fragment ≡ false
  pub protected :
      (url.scheme ≡ codes "https")
      ⊎ ((url.scheme ≡ codes "http") × (is_loopback_host url.host ≡ true))

abbrev pub IsSecure : (Text → Option Url) → Text → Type 0
IsSecure parse endpoint = (url : Url) × (parse endpoint ≡ some url) × IsSecureUrl url

protected_lem :
    (scheme : Text) (loopback : Bool)
    → not (
        not (holds (Text-discrete scheme (codes "https")))
        && not (holds (Text-discrete scheme (codes "http")) && loopback))
      ≡ true
    → (scheme ≡ codes "https") ⊎ ((scheme ≡ codes "http") × (loopback ≡ true))
protected_lem scheme loopback h = elim (Bool-cases (holds (Text-discrete scheme (codes "https")))) [
  | inl secure ↦ inl (holds→ _ secure)
  | inr other ↦ inr (holds→ (Text-discrete scheme (codes "http")) (ground arith), ground arith)
]

check_url-IsSecureUrl : (url : Url) → check_url (some url) ≡ ok tt → IsSecureUrl url
unfolding check_url
check_url-IsSecureUrl url h = record {
  hosted = ground arith;
  no_username = ground arith;
  no_password = ground arith;
  no_fragment = ground arith;
  protected = protected_lem url.scheme (is_loopback_host url.host) (ground arith);
}

module _ (parse : Text → Option Url) where
  validate_mcp_endpoint-IsSecure :
      (endpoint : Text) → validate_mcp_endpoint parse endpoint ≡ ok tt → IsSecure parse endpoint
  unfolding validate_mcp_endpoint check_url
  validate_mcp_endpoint-IsSecure endpoint h = by_url (parse endpoint) refl (ground arith)
    where
      by_url :
          (parsed : Option Url)
          → parse endpoint ≡ parsed
          → check_url parsed ≡ ok tt
          → IsSecure parse endpoint
      by_url none e c = cc
      by_url (some url) e c = (url, e, check_url-IsSecureUrl url c)

  check_alias-IsSecure :
      (entry : Text × Text) → check_alias parse entry ≡ ok tt → IsSecure parse entry.1
  check_alias-IsSecure (alias, endpoint) h =
      validate_mcp_endpoint-IsSecure endpoint
        (passed (validate_mcp_endpoint parse endpoint) (ground arith))
    where
      passed : (r : Checked) → passes r ≡ true → r ≡ ok tt
      passed (ok tt) h = refl
      passed (err failure) h = cc

  transport-IsSecure :
      (requires : RuntimeRequirements) (endpoint : Text) (discovery : McpDiscoveryPolicy)
      (limits : RuntimeLimits)
      → validate_runtime parse requires
          (RuntimeProtocol.mcp (McpTransport.streamable_http endpoint) discovery limits)
        ≡ ok tt
      → IsSecure parse endpoint × All (λ entry. IsSecure parse entry.1) discovery.endpoint_aliases
  unfolding validate_runtime check_transport validate_mcp_discovery
  transport-IsSecure requires endpoint discovery limits h = (
    validate_mcp_endpoint-IsSecure endpoint (ground arith),
    All-map _ _ check_alias-IsSecure discovery.endpoint_aliases
        (for_each-All (check_alias parse) discovery.endpoint_aliases (ground arith)),
  )

-- The contract of a remote server: every endpoint is secure, no process of the machine is
-- described, nothing is injected, and an OAuth connection stands beside an OAuth session only.
pub record IsRemote (parse : Text → Option Url) (endpoint : Text) (discovery : McpDiscoveryPolicy)
    (contract : SkillRuntimeContract) : Type 0 where
  pub secure : IsSecure parse endpoint
  pub aliases : All (λ entry. IsSecure parse entry.1) discovery.endpoint_aliases
  pub no_executable : contract.requires.bins ≡ []
  pub no_entrypoint : contract.requires.entrypoint ≡ none
  pub no_environment : contract.requires.environment ≡ []
  pub no_injection : contract.auth.injections ≡ []
  pub oauth : (contract.auth.kind ≡ AuthKind.oauth_session) ↔ (is_some discovery.oauth ≡ true)

nil_lem : {A : Type 0} (xs : List A) → is_nil xs ≡ true → xs ≡ []
nil_lem [] h = refl
nil_lem (x ∷ xs) h = cc

none_lem : {A : Type 0} (o : Option A) → is_some o ≡ false → o ≡ none
none_lem none h = refl
none_lem (some a) h = cc

module _ (endpoint : Text) (discovery : McpDiscoveryPolicy) (limits : RuntimeLimits) where
  abbrev remote : RuntimeProtocol
  remote = RuntimeProtocol.mcp (McpTransport.streamable_http endpoint) discovery limits

  compatible-oauth :
      (kind : AuthKind)
      → compatible kind remote ≡ true
      → (kind ≡ AuthKind.oauth_session) ↔ (is_some discovery.oauth ≡ true)
  unfolding compatible
  compatible-oauth kind h = elim (Bool-cases (is_kind kind AuthKind.oauth_session)) [
    | inl session ↦ (λ _. ground arith, λ _. holds→ _ session)
    | inr other ↦ (
      λ e. absurd (let same = →holds (AuthKind-discrete kind AuthKind.oauth_session) e in cc),
      λ e. absurd (ground arith),
    )
  ]

  process-absent :
      (contract : SkillRuntimeContract)
      → check_process contract remote ≡ ok tt
      → (is_nil contract.requires.bins ≡ true)
        × (is_some contract.requires.entrypoint ≡ false)
        × (is_nil contract.requires.environment ≡ true)
  unfolding check_process
  process-absent contract h = (ground arith, ground arith, ground arith)

  injections-absent :
      (auth : AuthContract) (names : List Text)
      → validate_injections auth remote names ≡ ok tt
      → is_nil auth.injections ≡ true
  unfolding validate_injections
  injections-absent auth names h = ground arith

-- A validated contract with a remote transport reaches its endpoint, and every endpoint that has an
-- alias, at a URL that names a host and has neither credentials nor a fragment, over HTTPS or over
-- HTTP to the machine itself. It describes no process and injects nothing, and it has an OAuth
-- connection exactly when its kind is an OAuth session.
pub validate_skill_runtime_contract-IsRemote :
    (parse : Text → Option Url) (contract : SkillRuntimeContract) (endpoint : Text)
    (discovery : McpDiscoveryPolicy) (limits : RuntimeLimits)
    → validate_skill_runtime_contract parse contract ≡ ok tt
    → contract.runtime
      ≡ RuntimeProtocol.mcp (McpTransport.streamable_http endpoint) discovery limits
    → IsRemote parse endpoint discovery contract
validate_skill_runtime_contract-IsRemote parse contract endpoint discovery limits valid same =
    let (secure, aliases) = transport-IsSecure parse contract.requires endpoint discovery limits (
      subst (λ r. validate_runtime parse contract.requires r ≡ ok tt) same
        (runtime-validated parse contract valid)) in
    let (bins, entrypoint, environment) =
      process-absent endpoint discovery limits contract (
        subst (λ r. check_process contract r ≡ ok tt) same
          (process-checked parse contract valid)) in
    let checked =
      subst (λ r. validate_auth contract.auth r (executable_of contract.requires) ≡ ok tt) same
        (auth-validated parse contract valid) in
    let (names, _, injected, kind) = auth-parts contract.auth _ _ checked in
    record {
      secure = secure;
      aliases = aliases;
      no_executable = nil_lem _ bins;
      no_entrypoint = none_lem _ entrypoint;
      no_environment = nil_lem _ environment;
      no_injection =
          nil_lem _ (injections-absent endpoint discovery limits contract.auth names injected);
      oauth = compatible-oauth endpoint discovery limits contract.auth.kind kind;
    }
