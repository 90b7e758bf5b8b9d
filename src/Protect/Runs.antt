-- ===== src/Protect/Runs.antt =====
-- How often a step is run (protect/retry.go).
use durarun_operator.Prelude.{
  ℕ, zero, suc, ◌+◌, ◌≤◌, ◌<◌, ◌≡◌, refl, sym, ap, Bool, true, false, not, ◌&&◌, Option, none, some,
  is_some, if◌then◌else◌, arith, ◌⊎◌, inl, inr, Bool-cases, ltb,
}
use mathlib.Core.Path.{subst}
use durarun_operator.Protect.{
  RunError, context_error, RetryConfig, is_retried, further_attempts, after_run, run_from, execute,
}

-- The run failed with an error that is retried, and the wait was not cancelled.
abbrev pub goes_on : Option (RunError → Bool) → Bool → Option RunError → Bool
goes_on retry_on cancelled none = false
goes_on retry_on cancelled (some e) = is_retried retry_on e && not cancelled

le_cases : (a k : ℕ) → a ≤ k → (a ≡ k) ⊎ (suc a ≤ k)
le_cases a k l = elim (Bool-cases (ltb a k)) [
  | inl e ↦ inr (ground (arith, e))
  | inr e ↦ inl (ground (arith, e, l))
]

module _ (fn : ℕ → Option RunError) (cancelled : ℕ → Bool) where
  -- The runs from one number on, of which at most `further` follow the first.
  pub record RunsFrom (retry_on : Option (RunError → Bool)) (attempt further : ℕ)
      (r : ℕ × Option RunError) : Type 0 where
    pub at_least : attempt ≤ r.0
    pub at_most : r.0 ≤ attempt + further
    pub verdict : is_some r.1 ≡ is_some (fn r.0)
    pub before : (k : ℕ) → attempt ≤ k → k < r.0 → goes_on retry_on (cancelled k) (fn k) ≡ true
    pub stopped : (r.0 ≡ attempt + further) ⊎ (goes_on retry_on (cancelled r.0) (fn r.0) ≡ false)

  here :
      (retry_on : Option (RunError → Bool)) (attempt further : ℕ) (e : Option RunError)
      → is_some e ≡ is_some (fn attempt)
      → goes_on retry_on (cancelled attempt) (fn attempt) ≡ false
      → RunsFrom retry_on attempt further (attempt, e)
  here retry_on attempt further e v s = record {
    at_least = omega arith;
    at_most = omega arith;
    verdict = v;
    before = λ k l h. absurd (omega (arith, l, h));
    stopped = inr s;
  }

  later :
      (retry_on : Option (RunError → Bool)) (attempt n : ℕ) (r : ℕ × Option RunError)
      → goes_on retry_on (cancelled attempt) (fn attempt) ≡ true
      → RunsFrom retry_on (suc attempt) n r
      → RunsFrom retry_on attempt (suc n) r
  later retry_on attempt n r g h = record {
    at_least = omega (arith, h.at_least);
    at_most = omega (arith, h.at_most);
    verdict = h.verdict;
    before = λ k l b. elim (le_cases attempt k l) [
      | inl e ↦ subst (λ x. goes_on retry_on (cancelled x) (fn x) ≡ true) e g
      | inr m ↦ h.before k m b
    ];
    stopped = elim h.stopped [ inl e ↦ inl (omega (arith, e)) | inr f ↦ inr f ];
  }

  after_run-RunsFrom :
      (o : Option RunError) (retry_on : Option (RunError → Bool)) (attempt n : ℕ)
      (next : ℕ × Option RunError)
      → fn attempt ≡ o
      → RunsFrom retry_on (suc attempt) n next
      → RunsFrom retry_on attempt (suc n) (after_run fn cancelled o retry_on attempt next)
  unfolding after_run
  after_run-RunsFrom none retry_on attempt n next e h =
      here retry_on attempt (suc n) none (ap is_some (sym e))
        (ap (goes_on retry_on (cancelled attempt)) e)
  after_run-RunsFrom (some x) retry_on attempt n next e h =
      elim (Bool-cases (is_retried retry_on x)) [
        | inr f ↦
            rw (f, if◌then◌else◌)
              (here retry_on attempt (suc n) (some x) (ap is_some (sym e)) (ground (arith, e, f)))
        | inl t ↦ elim (Bool-cases (cancelled attempt)) [
          | inl c ↦
              rw (t, c, if◌then◌else◌)
                (here retry_on attempt (suc n) (some context_error) (ap is_some (sym e))
                  (ground (arith, e, c)))
          | inr c ↦
              rw (t, c, if◌then◌else◌) (later retry_on attempt n next (ground (arith, e, c, t)) h)
        ]
      ]

  run_from-RunsFrom :
      (retry_on : Option (RunError → Bool)) (n attempt : ℕ)
      → RunsFrom retry_on attempt n (run_from fn cancelled retry_on n attempt)
  unfolding run_from
  run_from-RunsFrom retry_on zero attempt = record {
    at_least = omega arith;
    at_most = omega arith;
    verdict = refl;
    before = λ k l h. absurd (omega (arith, l, h));
    stopped = inl (omega arith);
  }
  run_from-RunsFrom retry_on (suc n) attempt =
      after_run-RunsFrom (fn attempt) retry_on attempt n
        (run_from fn cancelled retry_on n (suc attempt)) refl
        (run_from-RunsFrom retry_on n (suc attempt))

  -- Execute runs the step at least once and at most the maximum of attempts, where a maximum below 1
  -- stands for 1. Every run but the last failed with an error that is retried, in a context that
  -- went on; it stops before the maximum only at a run that succeeded, failed with another error,
  -- or was cancelled; and it returns nil exactly when its last run succeeded.
  pub execute-RunsFrom :
      (cfg : RetryConfig)
      → RunsFrom cfg.retry_on 1 (further_attempts cfg) (execute fn cancelled cfg)
  unfolding execute
  execute-RunsFrom cfg = run_from-RunsFrom cfg.retry_on (further_attempts cfg) 1
