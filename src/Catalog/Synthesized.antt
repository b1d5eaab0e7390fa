-- ===== src/Catalog/Synthesized.antt =====
-- A contract that was validated has its catalog, of tool-runtime-core/src/manifest_synthesis.rs.
use magic_run.Prelude.{
  ◌+◌, ◌≡◌, ◌≤◌, refl, true, false, Option, none, some, List, [], ◌∷◌, ◌++◌, bind_total, Text,
  codes, ok, arith, byte_len, ok_or, guard,
}
use magic_run.Prelude.Sets.{is_nil}
use magic_run.Manifest.Mcp.{McpTransport, McpDiscoveryPolicy, RuntimeProtocol}
use magic_run.Manifest.Auth.{RuntimeRequirements, SkillRuntimeContract}
use magic_run.Manifest.Vocabulary.{is_identifier}
use magic_run.Manifest.Requirements.{check_process}
use magic_run.Manifest.Discovery.{Url, bad_namespace, validate_mcp_discovery}
use magic_run.Manifest.Validation.{executable_of, validate_runtime, validate_skill_runtime_contract}
use magic_run.Manifest.Validated.{process-checked, runtime-validated}
use magic_run.Catalog.Synthesis.{
  SynthesizedRuntime, SynthesizedRuntimeCatalog, is_skill_id, bounded_join, namespace_of,
  synthesize_runtime, synthesize_runtime_catalog,
}
use magic_run.Catalog.Names.{byte_len_dot}

is_skill_id-short : (id : Text) → is_skill_id id ≡ true → byte_len id ≤ 128
unfolding is_skill_id
is_skill_id-short id h = ground arith

is_identifier-short : (value : Text) → is_identifier value ≡ true → byte_len value ≤ 256
unfolding is_identifier
is_identifier-short value h = ground arith

bounded_join-total :
    (id suffix : Text)
    → byte_len id + byte_len suffix ≤ 512
    → (name : Text) × (bounded_join id suffix ≡ ok name)
unfolding bounded_join
bounded_join-total id suffix h = (id ++ suffix, ground arith)

run-short : (id : Text) → byte_len id ≤ 128 → byte_len id + byte_len (codes ".run") ≤ 512
unfolding byte_len
run-short id h = omega arith

ok_or-some :
    {E A : Type 0} (o : Option A) (failure : E) {value : A}
    → o ≡ some value
    → ok_or o failure ≡ ok value
ok_or-some o failure e = rw e refl

executable_of-some :
    (requires : RuntimeRequirements)
    → is_nil requires.bins ≡ false
    → (executable : Text) × (executable_of requires ≡ some executable)
unfolding executable_of
executable_of-some requires h = by_cases requires.entrypoint requires.bins h
  where
    by_cases :
        (entrypoint : Option Text) (bins : List Text)
        → is_nil bins ≡ false
        → (executable : Text) × (executable_of
              (record { bins = bins; entrypoint = entrypoint; environment = [] })
            ≡ some executable)
    by_cases (some executable) bins e = (executable, refl)
    by_cases none (executable ∷ bins) e = (executable, refl)
    by_cases none [] e = cc

namespace_of-total :
    (id : Text) (namespace : Option Text)
    → byte_len id ≤ 128
    → (parse : Text → Option Url) → bad_namespace parse namespace ≡ false
    → (name : Text) × (namespace_of id namespace ≡ ok name)
namespace_of-total id none short parse h = (id, refl)
namespace_of-total id (some value) short parse h =
    let size = byte_len_dot value in
    let small = is_identifier-short value (ground (arith)) in
    bounded_join-total id (b'.' ∷ value) (omega arith)

module _ (parse : Text → Option Url) where
  discovery-namespace :
      (discovery : McpDiscoveryPolicy) (transport : McpTransport)
      → validate_mcp_discovery parse discovery transport ≡ ok tt
      → bad_namespace parse discovery.namespace ≡ false
  unfolding validate_mcp_discovery
  discovery-namespace discovery transport h = ground arith

  synthesize_runtime-total :
      (id : Text) (contract : SkillRuntimeContract) (runtime : RuntimeProtocol)
      → byte_len id ≤ 128
      → check_process contract runtime ≡ ok tt
      → validate_runtime parse contract.requires runtime ≡ ok tt
      → (r : SynthesizedRuntime) × (synthesize_runtime id contract runtime ≡ ok r)
  unfolding synthesize_runtime check_process validate_runtime
  synthesize_runtime-total id contract
        (RuntimeProtocol.cli prefix interaction stdin directory limits) short process valid =
      let (executable, found) = executable_of-some contract.requires (ground (arith)) in
      let (name, joined) = bounded_join-total id (codes ".run") (run-short id short) in
      bind_total (ok_or (executable_of contract.requires) _) _ executable (ok_or-some _ _ found)
        (bind_total (bounded_join id (codes ".run")) _ name joined (_, refl))
  synthesize_runtime-total id contract (RuntimeProtocol.mcp transport discovery limits) short
        process valid =
      let (name, joined) =
        namespace_of-total id discovery.namespace short parse
          (discovery-namespace discovery transport (ground (arith))) in
      bind_total (namespace_of id discovery.namespace) _ name joined (_, refl)

pub synthesize-policy :
    (skill_id : Text) (contract : SkillRuntimeContract) {catalog : SynthesizedRuntimeCatalog}
    → synthesize_runtime_catalog skill_id contract ≡ ok catalog
    → catalog.security_floor.policy ≡ contract.policy_floor
unfolding synthesize_runtime_catalog
synthesize-policy skill_id contract h = ground arith

-- A validated contract and a portable skill id of at most 128 bytes always have a catalog, which
-- carries the contract's policy floor.
pub synthesize_runtime_catalog-total :
    (parse : Text → Option Url) (skill_id : Text) (contract : SkillRuntimeContract)
    → validate_skill_runtime_contract parse contract ≡ ok tt
    → is_skill_id skill_id ≡ true
    → (catalog : SynthesizedRuntimeCatalog) × (synthesize_runtime_catalog skill_id contract
        ≡ ok catalog)
      × (catalog.security_floor.policy ≡ contract.policy_floor)
unfolding synthesize_runtime_catalog
synthesize_runtime_catalog-total parse skill_id contract valid portable =
    let (runtime, made) =
      synthesize_runtime-total parse skill_id contract contract.runtime
        (is_skill_id-short skill_id portable) (process-checked parse contract valid)
        (runtime-validated parse contract valid) in
    let (catalog, whole) = bind_total (guard (is_skill_id skill_id) _) _ tt (rw portable refl) (
      bind_total (synthesize_runtime skill_id contract contract.runtime) _ runtime made
        (_, refl)) in
    (catalog, whole, synthesize-policy skill_id contract whole)
