-- ===== src/Redaction/Leads.antt =====
-- What an answer of `find_next` of tool-runtime-core/src/credential_materialization.rs says of the
-- input.
use magic_run.Prelude.{
  ℕ, ◌+◌, ◌≡◌, ◌<◌, refl, sym, ap, subst, Option, none, some, [], ◌∷◌, ◌++◌, arith, ok, err, length,
  length-append, drop, replicate,
}
use magic_run.Redaction.Redactor.{Bytes, CredentialValueRedactor}
use magic_run.Redaction.Scan.{Outcome, Found, ◌>>=◌, match_here, prepend, found_or, find_next}
use magic_run.Redaction.Match.{IsRedactor, IsClear, Stands, match_here-IsClear, match_here-Stands}
use magic_run.Redaction.Scrub.{Scrubbed, done, copied, hidden, starts_with-drop, length_pattern}

module _ (r : CredentialValueRedactor) (made : IsRedactor r) (marks : ℕ → ℕ) where
  -- How a match leads on.
  pub record Leads (input before after : Bytes) (n : ℕ) : Type 0 where
    pub scrubs :
        (out : Bytes)
        → Scrubbed r marks after out
        → Scrubbed r marks input (before ++ (replicate (marks n) r.replacement ++ out))
    pub shorter : length before + length after < length input

  here-Leads :
      (c : ℕ) (rest : Bytes) (n : ℕ)
      → Stands r (c ∷ rest) n
      → Leads (c ∷ rest) [] (drop n (c ∷ rest)) n
  here-Leads c rest n (pattern, found, stands, same) =
      let cut = starts_with-drop pattern (c ∷ rest) stands in
      let full = length_pattern r made pattern found in
      let sum = length-append pattern (drop (length pattern) (c ∷ rest)) in
      let whole = ap length cut in
      subst (λ m. Leads (c ∷ rest) [] (drop m (c ∷ rest)) m) (sym same)
        (record {
          scrubs = λ out s. hidden pattern (drop (length pattern) (c ∷ rest)) out found cut refl s;
          shorter = omega arith;
        })

  later-Leads :
      (c : ℕ) (rest before after : Bytes) (n : ℕ)
      → IsClear r (c ∷ rest)
      → Leads rest before after n
      → Leads (c ∷ rest) (c ∷ before) after n
  later-Leads c rest before after n clear l = record {
    scrubs = λ out s. copied clear (l.scrubs out s);
    shorter = let less = l.shorter in omega arith;
  }

  -- What an answer of `find_next` says.
  abbrev pub Tells : Bytes → Found → Type 0
  Tells input none = Scrubbed r marks input input
  Tells input (some (before, n, after)) = Leads input before after n

  prepend-Tells :
      (c : ℕ) (rest : Bytes) (value : Outcome (Found × ℕ)) (answer : Found) (compared : ℕ)
      → IsClear r (c ∷ rest)
      → ((found : Found) (spent : ℕ) → value ≡ ok (found, spent) → Tells rest found)
      → (value >>= prepend c) ≡ ok (answer, compared)
      → Tells (c ∷ rest) answer
  prepend-Tells c rest (err failure) answer compared clear tells e = cc
  prepend-Tells c rest (ok (none, spent)) answer compared clear tells e =
      let same : ◌≡◌ {A = Found} none answer = cc in
      subst (Tells (c ∷ rest)) same (copied clear (tells none spent refl))
  prepend-Tells c rest (ok (some (before, n, after), spent)) answer compared clear tells e =
      let same : ◌≡◌ {A = Found} (some (c ∷ before, n, after)) answer = cc in
      subst (Tells (c ∷ rest)) same
        (later-Leads c rest before after n clear (tells (some (before, n, after)) spent refl))

  here-Tells :
      (c : ℕ) (rest : Bytes) (compared : ℕ) (value : Outcome (Option ℕ × ℕ)) (answer : Found)
      (spent : ℕ)
      → match_here r c rest compared ≡ value
      → ((from : ℕ) (found : Found) (after : ℕ)
          → find_next r rest from ≡ ok (found, after)
          → Tells rest found)
      → (value >>= found_or c rest (find_next r rest)) ≡ ok (answer, spent)
      → Tells (c ∷ rest) answer
  here-Tells c rest compared (err failure) answer spent same tells e = cc
  here-Tells c rest compared (ok (some n, middle)) answer spent same tells e =
      let value : ◌≡◌ {A = Found} (some ([], n, drop n (c ∷ rest))) answer = cc in
      subst (Tells (c ∷ rest)) value
        (here-Leads c rest n (match_here-Stands r c rest compared n middle same))
  here-Tells c rest compared (ok (none, middle)) answer spent same tells e =
      prepend-Tells c rest (find_next r rest middle) answer spent
        (match_here-IsClear r made c rest compared middle same) (tells middle) e

  pub find_next-Tells :
      (input : Bytes) (compared : ℕ) (answer : Found) (spent : ℕ)
      → find_next r input compared ≡ ok (answer, spent)
      → Tells input answer
  unfolding find_next
  find_next-Tells [] compared answer spent e =
      let same : ◌≡◌ {A = Found} none answer = cc in subst (Tells []) same done
  find_next-Tells (c ∷ rest) compared answer spent e =
      here-Tells c rest compared (match_here r c rest compared) answer spent refl
        (find_next-Tells rest) e
