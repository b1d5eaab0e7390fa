-- ===== src/Prelude/Texts/Split.antt =====
-- Laws of `split` and `join`.
use mathlib.Core.Path.{◌≡◌, refl}
use mathlib.Core.Logic.{inl, inr}
use mathlib.Core.Bool.{Bool, false}
use mathlib.Core.List.{List, [], ◌∷◌}
use Prim.Native.Nat.{ℕ}
use native.Mathlib.Omega.{arith}
use magic_run.Prelude.Tests.{◌==◌, Bool-cases}
use magic_run.Prelude.Lists.{any, All}
use magic_run.Prelude.Texts.{Text, push_head, split, join}

join-push_head :
    (sep c : ℕ) (pieces : List Text) → join sep (push_head c pieces) ≡ c ∷ join sep pieces
unfolding join
join-push_head sep c [] = refl
join-push_head sep c (s ∷ []) = refl
join-push_head sep c (s ∷ t ∷ pieces) = refl

split_cons : (sep : ℕ) (s : Text) → (p : Text) × (ps : List Text) × (split sep s ≡ p ∷ ps)
unfolding split
split_cons sep [] = ([], [], refl)
split_cons sep (c ∷ s) = elim (Bool-cases (c == sep)) [
  | inl e ↦ ([], split sep s, ground arith)
  | inr e ↦ let (p, ps, q) = split_cons sep s in (c ∷ p, ps, ground (arith, q))
]

-- Nothing is lost by a split.
pub join-split : (sep : ℕ) (s : Text) → join sep (split sep s) ≡ s
unfolding split join
join-split sep [] = refl
join-split sep (c ∷ s) =
    let (p, ps, q) = split_cons sep s in
    ground (arith, q, join-split sep s, join-push_head sep c (split sep s))

All-push_head :
    (p : ℕ → Bool) (c : ℕ) (pieces : List Text)
    → p c ≡ false
    → All (λ piece. any p piece ≡ false) pieces
    → All (λ piece. any p piece ≡ false) (push_head c pieces)
All-push_head p c [] hc h = ground arith
All-push_head p c (s ∷ pieces) hc h = ground arith

-- A piece has only characters of the whole text.
pub All-split :
    (p : ℕ → Bool) (sep : ℕ) (s : Text)
    → any p s ≡ false
    → All (λ piece. any p piece ≡ false) (split sep s)
unfolding split
All-split p sep [] h = ground arith
All-split p sep (c ∷ s) h = ground (arith, All-split p sep s, All-push_head p c (split sep s))

-- No piece holds the separator.
pub split-lacks_sep :
    (sep : ℕ) (s : Text) → All (λ piece. any (λ c. c == sep) piece ≡ false) (split sep s)
unfolding split
split-lacks_sep sep [] = ground arith
split-lacks_sep sep (c ∷ s) =
    ground (arith, split-lacks_sep sep s, All-push_head (λ d. d == sep) c (split sep s))
