-- ===== src/Prelude/Finding.antt =====
-- Elements that a list holds, and what `find` finds in it.
use magic_run.Prelude.{
  ℕ, zero, suc, ◌≡◌, ◌↔◌, ◌⊎◌, refl, subst, sym, ap, ◌∙◌, Bool, true, false, ◌&&◌, Option, none,
  some, List, [], ◌∷◌, find, keep, find-holds, All, All-map, All-get_elem?, get_elem?,
  if◌then◌else◌, Bool-cases, inl, inr,
}
use magic_run.Prelude.Sorting.{IsPairwise}

module _ {A : Type 0} where
  -- An element of the list.
  abbrev pub In : List A → A → Type 0
  In xs x = (i : ℕ) × (get_elem? xs i ≡ some x)

  found-In :
      (p : A → Bool) (y : A) (ys : List A) (rest : Option A) (t : Bool) {x : A}
      → (rest ≡ some x → In ys x)
      → (if t then some y else rest) ≡ some x
      → In (y ∷ ys) x
  found-In p y ys rest true later e = (0, e)
  found-In p y ys rest false later e = let (i, h) = later e in (suc i, h)

  pub find-In : (p : A → Bool) (xs : List A) {x : A} → find p xs ≡ some x → In xs x
  find-In p [] e = cc
  find-In p (y ∷ ys) e = found-In p y ys (find p ys) (p y) (find-In p ys) e

  -- Only one element passes the test.
  abbrev pub Excludes : (A → Bool) → A → A → Type 0
  Excludes p a b = p a ≡ true → p b ≡ true → ⊥

  pub find-only :
      (p : A → Bool) (xs : List A) (i : ℕ) {x : A}
      → IsPairwise (Excludes p) xs
      → get_elem? xs i ≡ some x
      → p x ≡ true
      → find p xs ≡ some x
  find-only p [] i only e h = cc
  find-only p (y ∷ ys) zero {x} only e h =
      let same : y ≡ x = cc in let test : p y ≡ true = ap p same ∙ h in rw test e
  find-only p (y ∷ ys) (suc i) {x} (first, only) e h = elim (Bool-cases (p y)) [
    | inl this ↦ absurd (All-get_elem? (Excludes p y) ys i first e this h)
    | inr other ↦ rw other (find-only p ys i only e h)
  ]

  pub In-cases : (y : A) (ys : List A) {x : A} → In (y ∷ ys) x → (y ≡ x) ⊎ In ys x
  In-cases y ys (zero, e) = inl cc
  In-cases y ys (suc i, e) = inr (i, e)

  -- The elements that a filter leaves are those of the list that pass its test.
  pub In-keep : (p : A → Bool) (xs : List A) {x : A} → In xs x → p x ≡ true → In (keep p xs) x
  In-keep p [] (i, e) h = cc
  In-keep p (y ∷ ys) {x} place h =
      by_place (In-cases y ys place) (λ later. In-keep p ys later h) (p y) refl
    where
      by_place :
          (y ≡ x) ⊎ In ys x
          → (In ys x → In (keep p ys) x)
          → (test : Bool) → p y ≡ test
          → In (if test then y ∷ keep p ys else keep p ys) x
      by_place (inl same) deeper true here = (0, ap some same)
      by_place (inl same) deeper false here = cc
      by_place (inr later) deeper true here = let (i, e) = deeper later in (suc i, e)
      by_place (inr later) deeper false here = deeper later

  pub keep-In : (p : A → Bool) (xs : List A) {x : A} → In (keep p xs) x → In xs x × (p x ≡ true)
  keep-In p [] (i, e) = cc
  keep-In p (y ∷ ys) {x} place = by_test (p y) refl (keep-In p ys) place
    where
      by_test :
          (test : Bool)
          → p y ≡ test
          → (In (keep p ys) x → In ys x × (p x ≡ true))
          → In (if test then y ∷ keep p ys else keep p ys) x
          → In (y ∷ ys) x × (p x ≡ true)
      by_test true here deeper place = elim (In-cases y (keep p ys) place) [
        | inl same ↦ ((0, ap some same), subst (λ z. p z ≡ true) same here)
        | inr later ↦ let ((i, e), h) = deeper later in ((suc i, e), h)
      ]
      by_test false here deeper place = let ((i, e), h) = deeper place in ((suc i, e), h)

  abbrev pub to_list : Option A → List A
  to_list none = []
  to_list (some x) = x ∷ []

  keep-none : (p : A → Bool) (xs : List A) → All (λ x. p x ≡ true → ⊥) xs → keep p xs ≡ []
  keep-none p [] h = refl
  keep-none p (x ∷ xs) (h, hs) = elim (Bool-cases (p x)) [
    | inl this ↦ absurd (h this)
    | inr other ↦ rw other (keep-none p xs hs)
  ]

  -- Where only one element passes the test, the filter leaves what `find` finds.
  pub keep-find :
      (p : A → Bool) (xs : List A) → IsPairwise (Excludes p) xs → keep p xs ≡ to_list (find p xs)
  keep-find p [] only = refl
  keep-find p (x ∷ xs) (first, only) = elim (Bool-cases (p x)) [
    | inl this ↦
        let rest =
          keep-none p xs (All-map (Excludes p x) _ (λ y excludes. excludes this) xs first) in
        rw this (ap (λ l. x ∷ l) rest)
    | inr other ↦ rw other (keep-find p xs only)
  ]

  keep_step :
      (p : A → Bool) (t : Bool) (x : A) (xs : List A)
      → find p (if t then x ∷ xs else xs) ≡ (if t && p x then some x else find p xs)
  keep_step p true x xs = refl
  keep_step p false x xs = refl

  pub find-keep : (p q : A → Bool) (xs : List A) → find p (keep q xs) ≡ find (λ x. q x && p x) xs
  find-keep p q [] = refl
  find-keep p q (x ∷ xs) =
      keep_step p (q x) x (keep q xs)
      ∙ ap (λ l. if q x && p x then some x else l) (find-keep p q xs)

  pub picked_iff :
      (p q : A → Bool) (xs : List A) (x : A)
      → IsPairwise (Excludes (λ y. q y && p y)) xs
      → (find p (keep q xs) ≡ some x) ↔ (In xs x × ((q x && p x) ≡ true))
  picked_iff p q xs x only = (
    λ e. let found = sym (find-keep p q xs) ∙ e in (find-In _ xs found, find-holds _ xs found),
    λ h. let ((i, place), test) = h in find-keep p q xs ∙ find-only _ xs i only place test,
  )

pub IsPairwise-map {ℓ} :
    {A : Type ℓ} (P : A → Type 0) (R S : A → A → Type 0)
    → ((a b : A) → P a → P b → R a b → S a b)
    → (xs : List A) → All P xs
    → IsPairwise R xs
    → IsPairwise S xs
IsPairwise-map P R S f [] h r = tt
IsPairwise-map {A = A} P R S f (x ∷ xs) (h, hs) (r, rs) =
    (both xs hs r, IsPairwise-map P R S f xs hs rs)
  where
    both : (ys : List A) → All P ys → All (R x) ys → All (S x) ys
    both [] p q = tt
    both (y ∷ ys) (p, ps) (q, qs) = (f x y h p q, both ys ps qs)
