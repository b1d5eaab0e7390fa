-- ===== src/Redaction/Prefix.antt =====
-- A pattern and the bytes received so far, for
-- tool-runtime-core/src/credential_materialization.rs.
use magic_run.Prelude.{
  ℕ, zero, suc, ◌≡◌, ◌≤◌, refl, Bool, true, false, [], ◌∷◌, ◌++◌, arith, length, take, ◌≢◌,
}
use magic_run.Redaction.Redactor.{Bytes}
use magic_run.Redaction.Scan.{starts_with}
use magic_run.Redaction.Streaming.{min}

-- A pattern that stands agrees with what is there.
starts_with-take :
    (n : ℕ) (pattern pending future : Bytes)
    → n ≤ length pattern
    → n ≤ length pending
    → starts_with pattern (pending ++ future) ≡ true
    → take n pattern ≡ take n pending
unfolding starts_with
starts_with-take zero pattern pending future short small h = refl
starts_with-take (suc n) [] pending future short small h = absurd (omega arith)
starts_with-take (suc n) (a ∷ pattern) [] future short small h = absurd (omega arith)
starts_with-take (suc n) (a ∷ pattern) (c ∷ pending) future short small h =
    let head : a ≡ c = ground arith in
    let rest =
      starts_with-take n pattern pending future (omega arith) (omega arith) (ground (arith)) in
    cc

min-left : (a b : ℕ) → min a b ≤ a
unfolding min
min-left a b = ground arith

min-right : (a b : ℕ) → min a b ≤ b
unfolding min
min-right a b = ground arith

pub differs-clear :
    (pattern pending future : Bytes)
    → take (min (length pattern) (length pending)) pattern
      ≢ take (min (length pattern) (length pending)) pending
    → starts_with pattern (pending ++ future) ≡ false
differs-clear pattern pending future differ = not_true _ (λ h. absurd (
    differ (
      starts_with-take (min (length pattern) (length pending)) pattern pending future
        (min-left (length pattern) (length pending)) (min-right (length pattern) (length pending))
        h)))
  where
    not_true : (b : Bool) → (b ≡ true → b ≡ false) → b ≡ false
    not_true true f = f refl
    not_true false f = refl

take-starts_with :
    (pattern pending : Bytes)
    → length pattern ≤ length pending
    → take (length pattern) pattern ≡ take (length pattern) pending
    → starts_with pattern pending ≡ true
unfolding starts_with
take-starts_with [] pending fits same = refl
take-starts_with (a ∷ pattern) [] fits same = absurd (omega arith)
take-starts_with (a ∷ pattern) (c ∷ pending) fits same =
    let head : a ≡ c = cc in
    let rest : take (length pattern) pattern ≡ take (length pattern) pending = cc in
    let later = take-starts_with pattern pending (omega arith) rest in ground arith

min-whole : (a b : ℕ) → a ≤ b → min a b ≡ a
unfolding min
min-whole a b h = ground arith

pub agrees-stands :
    (pattern pending : Bytes)
    → length pattern ≤ length pending
    → take (min (length pattern) (length pending)) pattern
      ≡ take (min (length pattern) (length pending)) pending
    → starts_with pattern pending ≡ true
agrees-stands pattern pending fits same =
    take-starts_with pattern pending fits
      (rw (min-whole (length pattern) (length pending) fits) at same)
