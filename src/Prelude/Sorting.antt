-- ===== src/Prelude/Sorting.antt =====
-- A stable sort by a Boolean order, as `sort_by` of the standard library, and its laws.
use Prim.Native.Nat.{suc}
use mathlib.Core.Path.{◌≡◌, refl, ap, ◌∙◌}
use mathlib.Core.Bool.{Bool, true, false}
use mathlib.Core.List.{List, [], ◌∷◌}
use magic_run.Prelude.Tests.{if◌then◌else◌, if_induction}
use magic_run.Prelude.Lists.{All, length}

module _ {ℓ} {A : Type ℓ} (le : A → A → Bool) where
  unfoldable pub insert_sorted : A → List A → List A
  insert_sorted x [] = x ∷ []
  insert_sorted x (y ∷ ys) =
      let rest = insert_sorted x ys in if le x y then x ∷ y ∷ ys else y ∷ rest

  unfoldable pub sort : List A → List A
  sort [] = []
  sort (x ∷ xs) = insert_sorted x (sort xs)

  -- Each element stands before all that follow it.
  abbrev pub IsSorted : List A → Type ℓ
  IsSorted [] = Unit
  IsSorted (x ∷ xs) = All (λ y. le x y ≡ true) xs × IsSorted xs

  module _ {κ} (P : A → Type κ) where
    insert_sorted-All : (x : A) (xs : List A) → P x → All P xs → All P (insert_sorted x xs)
    unfolding insert_sorted
    insert_sorted-All x [] p ps = (p, tt)
    insert_sorted-All x (y ∷ ys) p (q, qs) =
        if_induction (All P) (le x y) (λ _. (p, (q, qs))) (λ _. (q, insert_sorted-All x ys p qs))

    by_test :
        (x y : A) (ys rest : List A) (t : Bool)
        → (All P rest → P x × All P ys)
        → All P (if t then x ∷ y ∷ ys else y ∷ rest)
        → P x × All P (y ∷ ys)
    by_test x y ys rest true later h = h
    by_test x y ys rest false later (q, h) = let (p, qs) = later h in (p, (q, qs))

    All-insert_sorted : (x : A) (xs : List A) → All P (insert_sorted x xs) → P x × All P xs
    unfolding insert_sorted
    All-insert_sorted x [] h = h
    All-insert_sorted x (y ∷ ys) h =
        by_test x y ys (insert_sorted x ys) (le x y) (All-insert_sorted x ys) h

    pub sort-All : (xs : List A) → All P xs → All P (sort xs)
    unfolding sort
    sort-All [] h = tt
    sort-All (x ∷ xs) (p, ps) = insert_sorted-All x (sort xs) p (sort-All xs ps)

    pub All-sort : (xs : List A) → All P (sort xs) → All P xs
    unfolding sort
    All-sort [] h = tt
    All-sort (x ∷ xs) h = let (p, rest) = All-insert_sorted x (sort xs) h in (p, All-sort xs rest)

module _ {ℓ} {A : Type ℓ} (le : A → A → Bool) (total : (x y : A) → le x y ≡ false → le y x ≡ true)
    (trans : (x y z : A) → le x y ≡ true → le y z ≡ true → le x z ≡ true) where
  below-All :
      (x y : A) (ys : List A)
      → le x y ≡ true
      → All (λ z. le y z ≡ true) ys
      → All (λ z. le x z ≡ true) ys
  below-All x y [] h hs = tt
  below-All x y (z ∷ zs) h (hz, hs) = (trans x y z h hz, below-All x y zs h hs)

  insert_sorted-IsSorted :
      (x : A) (xs : List A) → IsSorted le xs → IsSorted le (insert_sorted le x xs)
  unfolding insert_sorted
  insert_sorted-IsSorted x [] h = (tt, tt)
  insert_sorted-IsSorted x (y ∷ ys) (low, h) =
      if_induction (IsSorted le) (le x y) (λ e. ((e, below-All x y ys e low), (low, h)))
        (λ e. (
          insert_sorted-All le (λ z. le y z ≡ true) x ys (total x y e) low,
          insert_sorted-IsSorted x ys h,
        ))

  pub sort-IsSorted : (xs : List A) → IsSorted le (sort le xs)
  unfolding sort
  sort-IsSorted [] = tt
  sort-IsSorted (x ∷ xs) = insert_sorted-IsSorted x (sort le xs) (sort-IsSorted xs)

-- A relation between any two elements.
abbrev pub IsPairwise {ℓ κ} : {A : Type ℓ} → (A → A → Type κ) → List A → Type κ
IsPairwise R [] = Unit
IsPairwise R (x ∷ xs) = All (R x) xs × IsPairwise R xs

module _ {ℓ κ} {A : Type ℓ} (le : A → A → Bool) (R : A → A → Type κ)
    (mirror : (x y : A) → R x y → R y x) where
  insert_sorted-IsPairwise :
      (x : A) (xs : List A) → All (R x) xs → IsPairwise R xs → IsPairwise R (insert_sorted le x xs)
  unfolding insert_sorted
  insert_sorted-IsPairwise x [] p q = (tt, tt)
  insert_sorted-IsPairwise x (y ∷ ys) (p, ps) (q, qs) =
      if_induction (IsPairwise R) (le x y) (λ _. ((p, ps), (q, qs)))
        (λ _.
          (insert_sorted-All le (R y) x ys (mirror x y p) q, insert_sorted-IsPairwise x ys ps qs))

  pub sort-IsPairwise : (xs : List A) → IsPairwise R xs → IsPairwise R (sort le xs)
  unfolding sort
  sort-IsPairwise [] p = tt
  sort-IsPairwise (x ∷ xs) (p, ps) =
      insert_sorted-IsPairwise x (sort le xs) (sort-All le (R x) xs p) (sort-IsPairwise xs ps)

module _ {ℓ} {A : Type ℓ} (le : A → A → Bool) where
  length-insert_sorted : (x : A) (xs : List A) → length (insert_sorted le x xs) ≡ suc (length xs)
  unfolding insert_sorted
  length-insert_sorted x [] = refl
  length-insert_sorted x (y ∷ ys) =
      if_induction (λ (l : List A). length l ≡ suc (suc (length ys))) (le x y) (λ _. refl)
        (λ _. ap suc (length-insert_sorted x ys))

  pub length-sort : (xs : List A) → length (sort le xs) ≡ length xs
  unfolding sort
  length-sort [] = refl
  length-sort (x ∷ xs) = length-insert_sorted x (sort le xs) ∙ ap suc (length-sort xs)
