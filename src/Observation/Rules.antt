-- ===== src/Observation/Rules.antt =====
-- What the loops over rules and predicates of
-- tool-runtime-core/src/credential_lifecycle_observation.rs decide.
use magic_run.Prelude.{
  ℕ, suc, ◌+◌, ◌≡◌, ◌⊎◌, inl, inr, refl, sym, ap, subst, Bool, true, false, ◌&&◌, Option, none,
  some, List, [], ◌∷◌, Text, ok, arith, not, all, any, is_some, holds, holds→, holds_refl, length,
  ok-injective, bind_inversion, if◌then◌else◌, Bool-cases,
}
use magic_run.Prelude.Sets.{contains}
use magic_run.Prelude.Finding.{In, In-cases}
use magic_run.Manifest.Auth.{
  LifecycleJsonPredicate, LifecycleObservedAuthState, LifecycleStatusRule,
}
use magic_run.Manifest.Equality.{LifecycleObservedAuthState-discrete}
use magic_run.Observation.Value.{Value}
use magic_run.Observation.Predicates.{
  Evaluated, consume, texts, array_contains_all_strings, matches_scalar, array_of, payload_matches,
  predicate_matches, predicates_match,
}
use magic_run.Observation.Evaluate.{insert_state, rules_match}

-- What a predicate says of the output, with no bound on the work.
module _ (pointer : Value → Text → Option Value) where
  abbrev pub says : LifecycleJsonPredicate → Value → Bool
  says (LifecycleJsonPredicate.equals path value) payload =
      matches_scalar (pointer payload path) value
  says (LifecycleJsonPredicate.exists path) payload = is_some (pointer payload path)
  says (LifecycleJsonPredicate.missing path) payload = not (is_some (pointer payload path))
  says (LifecycleJsonPredicate.array_contains_all_strings path values) payload =
      elim (array_of (pointer payload path)) [
        | none ↦ false
        | some actual ↦ all (contains (texts actual)) values
      ]

  abbrev pub satisfies : LifecycleJsonPredicate → Option Value → Bool
  satisfies predicate none = false
  satisfies predicate (some payload) = says predicate payload

  abbrev pub fires : Option Value → LifecycleStatusRule → Bool
  fires payload rule = all (λ predicate. satisfies predicate payload) rule.all

  array_lem :
      (actual : List Value) (values : List Text) (budget remaining : ℕ) (matched : Bool)
      → array_contains_all_strings actual values budget ≡ ok (matched, remaining)
      → all (contains (texts actual)) values ≡ matched
  unfolding array_contains_all_strings
  array_lem actual values budget remaining matched e =
      let (left, used, rest) =
        bind_inversion (consume budget (length actual + length values)) _ e in
      ap (λ p. p.0) (ok-injective rest)

  payload_lem :
      (predicate : LifecycleJsonPredicate) (payload : Value) (budget remaining : ℕ) (matched : Bool)
      → payload_matches pointer predicate payload budget ≡ ok (matched, remaining)
      → says predicate payload ≡ matched
  unfolding payload_matches
  payload_lem (LifecycleJsonPredicate.equals path value) payload budget remaining matched e =
      ap (λ p. p.0) (ok-injective e)
  payload_lem (LifecycleJsonPredicate.exists path) payload budget remaining matched e =
      ap (λ p. p.0) (ok-injective e)
  payload_lem (LifecycleJsonPredicate.missing path) payload budget remaining matched e =
      ap (λ p. p.0) (ok-injective e)
  payload_lem (LifecycleJsonPredicate.array_contains_all_strings path values) payload budget
        remaining matched e =
      by_array (array_of (pointer payload path)) e
    where
      by_array :
          (array : Option (List Value))
          → ◌≡◌ {A = Evaluated (Bool × ℕ)}
              (elim array [
                | none ↦ ok (false, budget)
                | some actual ↦ array_contains_all_strings actual values budget
              ])
              (ok (matched, remaining))
          → elim array [ none ↦ false | some actual ↦ all (contains (texts actual)) values ]
            ≡ matched
      by_array none e = ap (λ p. p.0) (ok-injective e)
      by_array (some actual) e = array_lem actual values budget remaining matched e

  predicate_lem :
      (predicate : LifecycleJsonPredicate) (payload : Option Value) (budget remaining : ℕ)
      (matched : Bool)
      → predicate_matches pointer predicate payload budget ≡ ok (matched, remaining)
      → satisfies predicate payload ≡ matched
  unfolding predicate_matches
  predicate_lem predicate none budget remaining matched e =
      let (left, used, rest) = bind_inversion (consume budget 1) _ e in
      ap (λ p. p.0) (ok-injective rest)
  predicate_lem predicate (some payload) budget remaining matched e =
      let (left, used, rest) = bind_inversion (consume budget 1) _ e in
      payload_lem predicate payload left remaining matched rest

  -- The loop over the predicates, where its budget lasts, decides whether they all hold.
  pub predicates_match-fires :
      (predicates : List LifecycleJsonPredicate) (payload : Option Value) (budget remaining : ℕ)
      (matched : Bool)
      → predicates_match pointer predicates payload budget ≡ ok (matched, remaining)
      → all (λ predicate. satisfies predicate payload) predicates ≡ matched
  unfolding predicates_match
  predicates_match-fires [] payload budget remaining matched e = ap (λ p. p.0) (ok-injective e)
  predicates_match-fires (predicate ∷ rest) payload budget remaining matched e =
      let ((m, left), first, later) =
        bind_inversion (predicate_matches pointer predicate payload budget) _ e in
      by_first m left (predicate_lem predicate payload budget left m first)
        (λ run. predicates_match-fires rest payload left remaining matched run) later
    where
      by_first :
          (m : Bool) (left : ℕ)
          → satisfies predicate payload ≡ m
          → (predicates_match pointer rest payload left ≡ ok (matched, remaining)
              → all (λ p. satisfies p payload) rest ≡ matched)
          → ◌≡◌ {A = Evaluated (Bool × ℕ)}
              (elim m [
                | true ↦ predicates_match pointer rest payload left
                | false ↦ ok (false, left)
              ])
              (ok (matched, remaining))
          → (satisfies predicate payload && all (λ p. satisfies p payload) rest) ≡ matched
      by_first true left here tail later = rw here (tail later)
      by_first false left here tail later = rw here (ap (λ p. p.0) (ok-injective later))

-- A state is one of those found.
abbrev pub Has : List LifecycleObservedAuthState → LifecycleObservedAuthState → Type 0
Has states state = any (λ s. holds (LifecycleObservedAuthState-discrete s state)) states ≡ true

insert_state-keeps :
    (x state : LifecycleObservedAuthState) (states : List LifecycleObservedAuthState)
    → Has states state
    → Has (insert_state x states) state
insert_state-keeps x state states h = ground arith

insert_state-Has :
    (x : LifecycleObservedAuthState) (states : List LifecycleObservedAuthState)
    → Has (insert_state x states) x
insert_state-Has x states =
    let same = holds_refl LifecycleObservedAuthState-discrete x in ground arith

insert_state_only :
    (x state : LifecycleObservedAuthState) (states : List LifecycleObservedAuthState)
    → Has (insert_state x states) state
    → (x ≡ state) ⊎ Has states state
insert_state_only x state states h =
    elim (Bool-cases (holds (LifecycleObservedAuthState-discrete x state))) [
      | inl e ↦ inl (holds→ (LifecycleObservedAuthState-discrete x state) e)
      | inr e ↦ inr (ground arith)
    ]

-- What the rules make of the states that were found before.
pub record Gathers (pointer : Value → Text → Option Value) (rules : List LifecycleStatusRule)
    (payload : Option Value) (before after : List LifecycleObservedAuthState) : Type 0 where
  pub kept : (state : LifecycleObservedAuthState) → Has before state → Has after state
  pub added :
      (rule : LifecycleStatusRule)
      → In rules rule
      → fires pointer payload rule ≡ true
      → Has after rule.state
  pub only :
      (state : LifecycleObservedAuthState)
      → Has after state
      → Has before state
        ⊎ ((rule : LifecycleStatusRule) × (In rules rule)
            × (fires pointer payload rule ≡ true)
            × (rule.state ≡ state))

module _ (pointer : Value → Text → Option Value) (payload : Option Value) where
  Gathers-cons :
      (rule : LifecycleStatusRule) (rest : List LifecycleStatusRule)
      (before after : List LifecycleObservedAuthState) (matched : Bool)
      → fires pointer payload rule ≡ matched
      → Gathers pointer rest payload
          (if matched then insert_state rule.state before else before)
          after
      → Gathers pointer (rule ∷ rest) payload before after
  Gathers-cons rule rest before after true here later = record {
    kept = λ state h. later.kept state (insert_state-keeps rule.state state before h);
    added = λ other place fired. elim (In-cases rule rest place) [
      | inl same ↦
          subst (λ r. Has after r.state) same
            (later.kept rule.state (insert_state-Has rule.state before))
      | inr deeper ↦ later.added other deeper fired
    ];
    only = λ state h. elim (later.only state h) [
      | inl old ↦ elim (insert_state_only rule.state state before old) [
        | inl same ↦ inr (rule, (0, refl), here, same)
        | inr known ↦ inl known
      ]
      | inr (other, (i, place), fired, same) ↦ inr (other, (suc i, place), fired, same)
    ];
  }
  Gathers-cons rule rest before after false here later = record {
    kept = later.kept;
    added = λ other place fired. elim (In-cases rule rest place) [
      | inl same ↦
          absurd (let fired' = subst (λ r. fires pointer payload r ≡ true) (sym same) fired in cc)
      | inr deeper ↦ later.added other deeper fired
    ];
    only = λ state h. elim (later.only state h) [
      | inl old ↦ inl old
      | inr (other, (i, place), fired, same) ↦ inr (other, (suc i, place), fired, same)
    ];
  }

  -- The loop over the rules, where its budget lasts, gathers the states of the rules that fire.
  pub rules_match-Gathers :
      (rules : List LifecycleStatusRule) (before after : List LifecycleObservedAuthState)
      (budget : ℕ)
      → rules_match pointer rules payload before budget ≡ ok after
      → Gathers pointer rules payload before after
  unfolding rules_match
  rules_match-Gathers [] before after budget e =
      let same : before ≡ after = ok-injective e in
      record {
        kept = λ state h. subst (λ l. Has l state) same h;
        added = λ rule (i, place) fired. cc;
        only = λ state h. inl (subst (λ l. Has l state) (sym same) h);
      }
  rules_match-Gathers (rule ∷ rest) before after budget e =
      let (left, used, run) = bind_inversion (consume budget 1) _ e in
      let ((matched, remaining), first, later) =
        bind_inversion (predicates_match pointer rule.all payload left) _ run in
      Gathers-cons rule rest before after matched
        (predicates_match-fires pointer rule.all payload left remaining matched first)
        (rules_match-Gathers rest _ after remaining later)
