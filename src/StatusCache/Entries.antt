-- ===== src/StatusCache/Entries.antt =====
-- Laws of the map of entries of tool-runtime-core/src/credential_status_cache.rs.
use magic_run.Prelude.{
  ℕ, ◌+◌, ◌≤◌, ◌<◌, ◌≡◌, Bool, true, false, ◌&&◌, not, Option, some, [], ◌∷◌, arith, leb, keep,
  length, length-keep, All, holds, if◌then◌else◌, Bool-cases, if_induction, inl, inr, subst,
  is_some,
}
use magic_run.StatusCache.State.{
  CredentialStatusCacheTarget, CredentialStatusCacheEntry, Entries, Target-discrete, get, remove,
  insert, contains_key,
}

module _ (P : CredentialStatusCacheTarget × CredentialStatusCacheEntry → Type 0) where
  pub All-keep :
      (p : CredentialStatusCacheTarget × CredentialStatusCacheEntry → Bool) (xs : Entries)
      → All P xs
      → All P (keep p xs)
  All-keep p [] h = tt
  All-keep p (x ∷ xs) (h, hs) =
      if_induction (All P) (p x) (λ _. (h, All-keep p xs hs)) (λ _. All-keep p xs hs)

  found_here :
      (key target : CredentialStatusCacheTarget) (x entry : CredentialStatusCacheEntry)
      (rest : Option CredentialStatusCacheEntry) (d : Dec (key ≡ target))
      → P (key, x)
      → (rest ≡ some entry → P (target, entry))
      → (if holds d then some x else rest) ≡ some entry
      → P (target, entry)
  found_here key target x entry rest (yes same) h later e =
      let moved : P (target, x) = subst (λ k. P (k, x)) same h in
      let value : x ≡ entry = cc in subst (λ v. P (target, v)) value moved
  found_here key target x entry rest (no other) h later e = later e

  pub All-get :
      (target : CredentialStatusCacheTarget) (xs : Entries) (entry : CredentialStatusCacheEntry)
      → All P xs
      → get target xs ≡ some entry
      → P (target, entry)
  All-get target [] entry h e = cc
  All-get target ((key, x) ∷ xs) entry (h, hs) e =
      found_here key target x entry (get target xs) (Target-discrete key target) h
        (All-get target xs entry hs) e

removed_here :
    (key target : CredentialStatusCacheTarget) (x : CredentialStatusCacheEntry) (xs rest : Entries)
    (found : Option CredentialStatusCacheEntry) (d : Dec (key ≡ target))
    → length rest ≤ length xs
    → (is_some found ≡ true → length rest < length xs)
    → is_some (if holds d then some x else found) ≡ true
    → length (if not (holds d) then (key, x) ∷ rest else rest) < length xs + 1
removed_here key target x xs rest found (yes same) most later e = omega arith
removed_here key target x xs rest found (no other) most later e = omega (arith, later e)

-- A key that is present is removed.
pub length-remove :
    (target : CredentialStatusCacheTarget) (xs : Entries)
    → contains_key target xs ≡ true
    → length (remove target xs) < length xs
length-remove target [] e = cc
length-remove target ((key, x) ∷ xs) e =
    let fewer =
      removed_here key target x xs (remove target xs) (get target xs) (Target-discrete key target)
        (length-keep (λ e. not (holds (Target-discrete e.0 target))) xs) (length-remove target xs)
        e in
    omega (arith, fewer)

room_left : (present : Bool) (n : ℕ) → not present && leb 256 n ≡ false → present ≡ false → n < 256
room_left true n room missing = cc
room_left false n room missing = ground arith

pub length-insert :
    (target : CredentialStatusCacheTarget) (entry : CredentialStatusCacheEntry) (xs : Entries)
    → not (contains_key target xs) && leb 256 (length xs) ≡ false
    → length xs ≤ 256
    → length (insert target entry xs) ≤ 256
length-insert target entry xs room most = elim (Bool-cases (contains_key target xs)) [
  | inl present ↦ omega (arith, length-remove target xs present)
  | inr missing ↦ omega (
    arith,
    length-keep (λ e. not (holds (Target-discrete e.0 target))) xs,
    room_left (contains_key target xs) (length xs) room missing,
  )
]
