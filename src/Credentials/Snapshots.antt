-- ===== src/Credentials/Snapshots.antt =====
-- What a registry snapshot of tool-runtime-core/src/credential_profiles.rs holds.
use magic_run.Prelude.{
  ◌≡◌, ◌≢◌, ◌≤◌, refl, sym, subst, Bool, true, false, ◌&&◌, not, List, [], ◌∷◌, arith, Result, ok,
  guard, ◌>>◌, ltb, All, All-map, length, holds, holds→, →holds, bind_inversion, guard_inversion,
  ok-injective, if◌then◌else◌,
}
use magic_run.Prelude.Sorting.{sort, sort-All, IsPairwise, sort-IsPairwise, length-sort}
use magic_run.Credentials.Error.{CredentialProfileError}
use magic_run.Credentials.Errors.{
  snapshot_too_large, profile_scope_mismatch, duplicate_profile, multiple_defaults,
}
use magic_run.Credentials.Keys.{
  CredentialScope, CredentialProfileKey, CredentialScope-discrete, CredentialProfileKey-discrete,
}
use magic_run.Credentials.Profiles.{CredentialProfileStatus}
use magic_run.Credentials.Registry.{
  CredentialProfileRegistrySnapshot, Group, Group-discrete, group_of, has_key, has_group,
  with_default, check_profiles, key_le, snapshot_new, max_profiles_per_scope,
  credential_profile_registry_v1,
}

abbrev pub HaveKeys : CredentialProfileStatus → CredentialProfileStatus → Type 0
HaveKeys a b = a.metadata.key ≢ b.metadata.key

-- Two defaults are of different groups.
abbrev pub ShareDefault : CredentialProfileStatus → CredentialProfileStatus → Type 0
ShareDefault a b =
    a.metadata.is_default ≡ true → b.metadata.is_default ≡ true → group_of a ≢ group_of b

pub record IsSnapshot (scope : CredentialScope) (profiles : List CredentialProfileStatus)
    : Type 0 where
  pub bounded : length profiles ≤ max_profiles_per_scope
  pub scoped : All (λ p. p.metadata.key.scope ≡ scope) profiles
  pub distinct : IsPairwise HaveKeys profiles
  pub one_default : IsPairwise ShareDefault profiles

-- What the loop of `new` has checked, with the sets it started with.
record Checked (scope : CredentialScope) (keys : List CredentialProfileKey) (defaults : List Group)
    (profiles : List CredentialProfileStatus) : Type 0 where
  scoped : All (λ p. p.metadata.key.scope ≡ scope) profiles
  fresh : All (λ p. has_key p.metadata.key keys ≡ false) profiles
  distinct : IsPairwise HaveKeys profiles
  new_group :
      All (λ p. p.metadata.is_default ≡ true → has_group (group_of p) defaults ≡ false) profiles
  one_default : IsPairwise ShareDefault profiles

key_missing :
    (key other : CredentialProfileKey) (keys : List CredentialProfileKey)
    → has_key key (other ∷ keys) ≡ false
    → (other ≢ key) × (has_key key keys ≡ false)
unfolding has_key
key_missing key other keys h = (
  λ same.
      absurd (clash (→holds (CredentialProfileKey-discrete key other) (sym same)) (ground (arith))),
  ground (arith),
)
  where
    clash : {b : Bool} → b ≡ true → b ≡ false → ⊥
    clash {b} x y = cc

group_missing :
    (group other : Group) (groups : List Group)
    → has_group group (other ∷ groups) ≡ false
    → (other ≢ group) × (has_group group groups ≡ false)
unfolding has_group
group_missing group other groups h = (
  λ same. absurd (clash (→holds (Group-discrete group other) (sym same)) (ground (arith))),
  ground (arith),
)
  where
    clash : {b : Bool} → b ≡ true → b ≡ false → ⊥
    clash {b} x y = cc

defaults_missing :
    (p q : CredentialProfileStatus) (t : Bool) (defaults : List Group)
    → has_group (group_of q) (if t then group_of p ∷ defaults else defaults) ≡ false
    → (t ≡ true → group_of p ≢ group_of q) × (has_group (group_of q) defaults ≡ false)
defaults_missing p q true defaults h =
    let (other, rest) = group_missing (group_of q) (group_of p) defaults h in (λ _. other, rest)
defaults_missing p q false defaults h = (λ e. cc, h)

not_both : (a b : Bool) → not (a && b) ≡ true → a ≡ true → b ≡ false
not_both a b h e = ground arith

Checked-cons :
    (scope : CredentialScope) (keys : List CredentialProfileKey) (defaults : List Group)
    (p : CredentialProfileStatus) (profiles : List CredentialProfileStatus)
    → holds (CredentialScope-discrete p.metadata.key.scope scope) ≡ true
    → not (has_key p.metadata.key keys) ≡ true
    → not (p.metadata.is_default && has_group (group_of p) defaults) ≡ true
    → Checked scope (p.metadata.key ∷ keys) (with_default p defaults) profiles
    → Checked scope keys defaults (p ∷ profiles)
Checked-cons scope keys defaults p profiles in_scope unseen alone c = record {
  scoped = (holds→ (CredentialScope-discrete p.metadata.key.scope scope) in_scope, c.scoped);
  fresh = (
    false_of_not _ unseen,
    All-map _ _ (λ q h. (key_missing q.metadata.key p.metadata.key keys h).1) profiles c.fresh,
  );
  distinct = (
    All-map _ _ (λ q h. (key_missing q.metadata.key p.metadata.key keys h).0) profiles c.fresh,
    c.distinct,
  );
  new_group = (
    not_both _ _ alone,
    All-map _ _ (λ q h e. (defaults_missing p q p.metadata.is_default defaults (h e)).1) profiles
        c.new_group,
  );
  one_default = (
    All-map _ _ (λ q h e d. (defaults_missing p q p.metadata.is_default defaults (h d)).0 e)
        profiles c.new_group,
    c.one_default,
  );
}
  where
    false_of_not : (b : Bool) → not b ≡ true → b ≡ false
    false_of_not b h = ground arith

check_profiles-Checked :
    (scope : CredentialScope) (keys : List CredentialProfileKey) (defaults : List Group)
    (profiles : List CredentialProfileStatus) {u : Unit {0}}
    → check_profiles scope keys defaults profiles ≡ ok u
    → Checked scope keys defaults profiles
unfolding check_profiles
check_profiles-Checked scope keys defaults [] h = record {
  scoped = tt;
  fresh = tt;
  distinct = tt;
  new_group = tt;
  one_default = tt;
}
check_profiles-Checked scope keys defaults (p ∷ profiles) h =
    let in_scope = holds (CredentialScope-discrete p.metadata.key.scope scope) in
    let unseen = not (has_key p.metadata.key keys) in
    let alone = not (p.metadata.is_default && has_group (group_of p) defaults) in
    let rest = check_profiles scope (p.metadata.key ∷ keys) (with_default p defaults) profiles in
    let (u1, one, h1) =
      bind_inversion (guard in_scope profile_scope_mismatch)
        (λ _. guard unseen duplicate_profile >> (guard alone multiple_defaults >> rest)) h in
    let (u2, two, h2) =
      bind_inversion (guard unseen duplicate_profile) (λ _. guard alone multiple_defaults >> rest)
        h1 in
    let (u3, three, h3) = bind_inversion (guard alone multiple_defaults) (λ _. rest) h2 in
    Checked-cons scope keys defaults p profiles (guard_inversion in_scope _ one)
      (guard_inversion unseen _ two) (guard_inversion alone _ three)
      (check_profiles-Checked scope (p.metadata.key ∷ keys) (with_default p defaults) profiles h3)

-- A snapshot is of its scope and bounded, no key stands twice in it, and no provider binding has
-- two defaults. It holds what it was given.
pub snapshot_new-IsSnapshot :
    (scope : CredentialScope) (profiles : List CredentialProfileStatus)
    (snapshot : CredentialProfileRegistrySnapshot)
    → snapshot_new scope profiles ≡ ok snapshot
    → (snapshot.scope ≡ scope)
      × (snapshot.profiles ≡ sort key_le profiles)
      × IsSnapshot snapshot.scope snapshot.profiles
unfolding snapshot_new
snapshot_new-IsSnapshot scope profiles snapshot h =
    let fits = not (ltb max_profiles_per_scope (length profiles)) in
    let made : Result CredentialProfileError CredentialProfileRegistrySnapshot = ok (record {
      schema_version = credential_profile_registry_v1;
      scope = scope;
      profiles = sort key_le profiles;
    }) in
    let (u1, one, h1) =
      bind_inversion (guard fits snapshot_too_large)
        (λ _. check_profiles scope [] [] profiles >> made) h in
    let (u2, two, h2) = bind_inversion (check_profiles scope [] [] profiles) (λ _. made) h1 in
    let c = check_profiles-Checked scope [] [] profiles two in
    let small = guard_inversion fits _ one in
    let size = length-sort key_le profiles in
    subst
      (λ s. (s.scope ≡ scope) × (s.profiles ≡ sort key_le profiles) × IsSnapshot s.scope s.profiles)
      (ok-injective h2)
      (
        refl,
        refl,
        record {
          bounded = ground (arith);
          scoped = sort-All key_le _ profiles c.scoped;
          distinct = sort-IsPairwise key_le HaveKeys (λ a b n e. n (sym e)) profiles c.distinct;
          one_default =
              sort-IsPairwise key_le ShareDefault (λ a b n d e same. n e d (sym same)) profiles
                c.one_default;
        },
      )
