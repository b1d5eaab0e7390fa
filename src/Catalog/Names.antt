-- ===== src/Catalog/Names.antt =====
-- The local names of remote tools, of tool-runtime-core/src/mcp_catalog_policy.rs.
use magic_run.Prelude.{
  ◌+◌, ◌≡◌, ◌≤◌, refl, sym, ap, ◌∙◌, true, [], ◌∷◌, ◌++◌, Text, ok, arith, byte_len,
}
use magic_run.Manifest.Vocabulary.{is_mcp_tool_name}
use magic_run.Catalog.Synthesis.{max_synthesized_tool_name_bytes}
use magic_run.Catalog.Policy.{McpCatalogPolicyContract, local_tool_name}

append_cancel : (xs ys zs : Text) → xs ++ ys ≡ xs ++ zs → ys ≡ zs
append_cancel [] ys zs e = e
append_cancel (x ∷ xs) ys zs e = append_cancel xs ys zs (cc)

byte_len-append : (s t : Text) → byte_len (s ++ t) ≡ byte_len s + byte_len t
unfolding byte_len
byte_len-append [] t = omega arith
byte_len-append (c ∷ s) t = omega (arith, byte_len-append s t)

pub byte_len_dot : (s : Text) → byte_len (b'.' ∷ s) ≡ 1 + byte_len s
unfolding byte_len
byte_len_dot s = refl

-- What an accepted name is.
local_tool_name_lem :
    (contract : McpCatalogPolicyContract) (remote : Text) {name : Text}
    → local_tool_name contract remote ≡ ok name
    → (is_mcp_tool_name remote ≡ true)
      × (name ≡ contract.local_namespace ++ (b'.' ∷ remote))
      × (byte_len contract.local_namespace + 1 + byte_len remote ≤ max_synthesized_tool_name_bytes)
unfolding local_tool_name
local_tool_name_lem contract remote e = (ground arith, ground arith, ground arith)

-- The names of a catalog are different for different remote tools, and at most 512 bytes long.
pub local_tool_name-injective :
    (contract : McpCatalogPolicyContract) (a b name : Text)
    → local_tool_name contract a ≡ ok name
    → local_tool_name contract b ≡ ok name
    → (a ≡ b) × (byte_len name ≤ max_synthesized_tool_name_bytes)
local_tool_name-injective contract a b name first second =
    let (portable, made, short) = local_tool_name_lem contract a first in
    let (portable', made', short') = local_tool_name_lem contract b second in
    let tails = append_cancel contract.local_namespace (b'.' ∷ a) (b'.' ∷ b) (sym made ∙ made') in
    let size = ap byte_len made in
    let split = byte_len-append contract.local_namespace (b'.' ∷ a) in
    let dot = byte_len_dot a in (cc, omega arith)
