-- ===== src/Neo4j/Attempts.antt =====
-- What `_retry_with_backoff` of middleware_python/db/neo4j.py does with every behaviour of its function.
use social_graph_engine.Base.{
  ℕ, zero, suc, ◌+◌, ◌-◌, ◌*◌, ◌^◌, ◌≤◌, ◌<◌, ◌≡◌, refl, sym, ◌∙◌, ap, subst, Bool, true, false,
  Option, none, some, List, [], ◌∷◌, Bool-cases, inl, inr, ◌⊎◌, arith,
}
use social_graph_engine.Neo4j.{
  Outcome, returned, thrown, raised, paused, at_once, recover, attempts, retry_with_backoff,
  result_of,
}

-- `n` delays that double, from `base * 2 ^ k`.
abbrev pub delays : ℕ → ℕ → ℕ → List ℕ
delays base k zero = []
delays base k (suc n) = base * 2 ^ k ∷ delays base (suc k) n

abbrev pub sum : List ℕ → ℕ
sum [] = 0
sum (x ∷ xs) = x + sum xs

module _ {E A : Type 0} (is_retryable : E → Bool) (base_delay max_attempts : ℕ)
    (fn : ℕ → Outcome E A) where
  -- An exception that the loop retries.
  abbrev pub is_transient : Outcome E A → Bool
  is_transient (returned a) = false
  is_transient (thrown e) = is_retryable e

  -- The attempts from `k` on, `n` of them, end in transient exceptions.
  abbrev pub AllTransient : ℕ → ℕ → Type 0
  AllTransient k zero = Unit
  AllTransient k (suc n) = (is_transient (fn k) ≡ true) × AllTransient (suc k) n

  outcome_cases : (o : Outcome E A) → ((a : A) × (o ≡ returned a)) ⊎ ((e : E) × (o ≡ thrown e))
  outcome_cases (returned a) = inl (a, refl)
  outcome_cases (thrown e) = inr (e, refl)

  settled :
      (left k : ℕ) (last : Option E)
      → is_transient (fn k) ≡ false
      → attempts is_retryable base_delay max_attempts fn (suc left) k last
        ≡ at_once (result_of (fn k))
  unfolding attempts recover
  settled left k last s = elim (outcome_cases (fn k)) [
    | inl (a, e) ↦ ground arith
    | inr (x, e) ↦ ground arith
  ]

  -- A transient exception before the last attempt costs one call and one delay.
  passed :
      (left k : ℕ) (last : Option E)
      → is_transient (fn (suc k)) ≡ true
      → suc k < max_attempts
      → (e : E) × (fn (suc k) ≡ thrown e)
        × (attempts is_retryable base_delay max_attempts fn (suc left) (suc k) last
            ≡ paused
                (base_delay * 2 ^ k)
                (attempts is_retryable base_delay max_attempts fn left (suc (suc k)) (some e)))
  unfolding attempts recover
  passed left k last t lt =
      let before : suc k - 1 ≡ k = omega arith in
      elim (outcome_cases (fn (suc k))) [
        | inl (a, e) ↦ absurd (ground arith)
        | inr (x, e) ↦ (x, e, rw⁻¹ before (ground arith))
      ]

  settle :
      (n left k m : ℕ) (last : Option E)
      → k + left ≡ max_attempts
      → n < left
      → suc k + n ≡ m
      → AllTransient (suc k) n
      → is_transient (fn m) ≡ false
      → attempts is_retryable base_delay max_attempts fn left (suc k) last
        ≡ record { result = result_of (fn m); calls = suc n; slept = delays base_delay k n }
  settle n zero k m last total lt here transient end = absurd (omega arith)
  settle zero (suc left) k m last total lt here transient end =
      let same : suc k ≡ m = omega arith in
      subst
        (λ j.
          attempts is_retryable base_delay max_attempts fn (suc left) (suc k) last
          ≡ at_once (result_of (fn j)))
        same (settled left (suc k) last (rw same end))
  settle (suc n) (suc left) k m last total lt here transient end =
      let (e, thrown_e, step) = passed left k last transient.0 (omega arith) in
      step
      ∙ ap (paused (base_delay * 2 ^ k)) (
          settle n left (suc k) m (some e) (omega arith) (omega arith) (omega arith) transient.1
            end)

  exhaust :
      (n k : ℕ) (last : Option E)
      → k + suc n ≡ max_attempts
      → AllTransient (suc k) (suc n)
      → (e : E) × (fn max_attempts ≡ thrown e)
        × (attempts is_retryable base_delay max_attempts fn (suc n) (suc k) last
            ≡ record { result = raised e; calls = suc n; slept = delays base_delay k n })
  unfolding attempts recover
  exhaust zero k last total transient =
      let same : suc k ≡ max_attempts = omega arith in
      elim (outcome_cases (fn (suc k))) [
        | inl (a, e) ↦ absurd (ground arith)
        | inr (x, e) ↦ (x, ap fn (sym same) ∙ e, ground arith)
      ]
  exhaust (suc n) k last total transient =
      let (e, thrown_e, step) = passed (suc n) k last transient.0 (omega arith) in
      let (e', end, rest) = exhaust n (suc k) (some e) (omega arith) transient.1 in
      (e', end, step ∙ ap (paused (base_delay * 2 ^ k)) rest)

  -- Among `n` attempts from the one after `k` on, either all are transient or there is a first that is
  -- not, the one after `k + m`.
  first_settled :
      (n k : ℕ)
      → AllTransient (suc k) n
        ⊎ ((m : ℕ) × (m < n) × AllTransient (suc k) m × (is_transient (fn (suc (k + m))) ≡ false))
  first_settled zero k = inl tt
  first_settled (suc n) k = elim (Bool-cases (is_transient (fn (suc k)))) [
    | inr s ↦
        let same : suc k ≡ suc (k + 0) = omega arith in
        inr (0, omega arith, tt, subst (λ j. is_transient (fn j) ≡ false) same s)
    | inl t ↦ elim (first_settled n (suc k)) [
      | inl all ↦ inl (t, all)
      | inr (m, lt, before, s) ↦
          let same : suc (suc k + m) ≡ suc (k + suc m) = omega arith in
          inr (suc m, omega arith, (t, before), subst (λ j. is_transient (fn j) ≡ false) same s)
    ]
  ]

  -- The retry loop ends, whatever its function does, after at most `max_attempts` calls (at least one
  -- attempt allowed). If the attempt `n + 1` is the first that does not throw a transient exception,
  -- the loop ends as that attempt does, after `n` delays that double from `base_delay`. If all attempts
  -- throw transient exceptions, it raises the last of them, with no delay behind it.
  pub retry_with_backoff_lem :
      1 ≤ max_attempts
      → ((n : ℕ) × (n < max_attempts)
          × AllTransient 1 n
          × (is_transient (fn (suc n)) ≡ false)
          × (retry_with_backoff is_retryable base_delay max_attempts fn ≡ record {
            result = result_of (fn (suc n));
            calls = suc n;
            slept = delays base_delay 0 n;
          }))
        ⊎ ((e : E) × AllTransient 1 max_attempts
            × (fn max_attempts ≡ thrown e)
            × (retry_with_backoff is_retryable base_delay max_attempts fn ≡ record {
              result = raised e;
              calls = max_attempts;
              slept = delays base_delay 0 (max_attempts - 1);
            }))
  unfolding retry_with_backoff
  retry_with_backoff_lem some_attempt = elim (first_settled max_attempts 0) [
    | inr (n, lt, before, s) ↦
        let end : is_transient (fn (suc n)) ≡ false =
          subst (λ j. is_transient (fn (suc j)) ≡ false) (the_zero n) s in
        inl (
          n,
          lt,
          before,
          end,
          settle n max_attempts 0 (suc n) none (omega arith) lt (omega arith) before end,
        )
    | inl all ↦
        let m = max_attempts - 1 in
        let whole : suc m ≡ max_attempts = omega arith in
        let (e, end, run) =
          exhaust m 0 none (omega arith) (subst (AllTransient 1) (sym whole) all) in
        inr (
          e,
          all,
          end,
          subst
              (λ j.
                attempts is_retryable base_delay max_attempts fn j 1 none
                ≡ record { result = raised e; calls = j; slept = delays base_delay 0 m })
              whole run,
        )
  ]
    where
      the_zero : (n : ℕ) → 0 + n ≡ n
      the_zero n = omega arith
