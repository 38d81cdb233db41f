-- ===== src/Retry/Outcomes.antt =====
-- storage/retry/retry.go: what DoWithKey returns, by what its calls returned.
use ocache.Base.{
  Bool-cases, Option-cases, arith, false, inl, inr, none, refl, some, subst, suc, sym, true, zero,
  ℕ, ◌+◌, ◌<◌, ◌==◌, ◌≡◌, ◌≤◌, ◌⊎◌,
}
use ocache.Retry.Attempts.{Returned, World, attempt, attempts, do_with_key, error, success, timeout}

module _ {E : Type 0} (w : World E) where
  -- The call returned an error that may be tried again.
  abbrev pub Retried : ℕ → Type 0
  Retried i = (e : E) × (w.run_operation i ≡ some e) × (w.is_retryable e ≡ true)

  -- What the last of `calls` calls returned, or that the context was done.
  abbrev pub Ends : ℕ → ℕ → Returned E → Type 0
  Ends last calls success = (i : ℕ) × (calls ≡ suc i) × (w.run_operation i ≡ none)
  Ends last calls timeout =
      ((calls ≤ last) × (w.done_before calls ≡ true))
      ⊎ ((i : ℕ) × (calls ≡ suc i) × (i < last) × Retried i × (w.done_waiting i ≡ true))
  Ends last calls (error e) =
      (i : ℕ) × (calls ≡ suc i)
      × (w.run_operation i ≡ some e)
      × ((w.is_retryable e ≡ false) ⊎ (i ≡ last))

  -- From the attempt `i` on: the context was open before every call, and behind every call but the last one
  -- the operation was to be tried again and the context stayed open during the wait.
  abbrev pub Outcome : ℕ → ℕ → ℕ × Returned E → Type 0
  Outcome i last (calls, r) =
      (i ≤ calls)
      × (calls ≤ suc last)
      × ((j : ℕ) → i ≤ j → j < calls → w.done_before j ≡ false)
      × ((j : ℕ) → i ≤ j → suc j < calls → Retried j × (w.done_waiting j ≡ false))
      × Ends last calls r

  only : (i : ℕ) → w.done_before i ≡ false → (j : ℕ) → i ≤ j → j < suc i → w.done_before j ≡ false
  only i running j a b =
      let q : i ≡ j = omega (arith, a, b) in subst (λ n. w.done_before n ≡ false) q running

  attempt-Outcome :
      (i last : ℕ) (again : E → ℕ × Returned E)
      → i ≤ last
      → ((e : E)
          → w.done_before i ≡ false
          → w.run_operation i ≡ some e
          → w.is_retryable e ≡ true
          → Outcome i last (again e))
      → Outcome i last (attempt w i again)
  attempt-Outcome i last again h later = elim (Bool-cases (w.done_before i)) [
    | inl over ↦
        let q : attempt w i again ≡ (i, timeout) = simp over in
        subst (Outcome i last) (sym q) (
          omega arith,
          omega arith,
          λ j a b. absurd (omega (arith, a, b)),
          λ j a b. absurd (omega (arith, a, b)),
          inl (h, over),
        )
    | inr running ↦ elim (Option-cases (w.run_operation i)) [
      | inl ok ↦
          let q : attempt w i again ≡ (suc i, success) = rw (running, ok) refl in
          subst (Outcome i last) (sym q) (
            omega arith,
            omega arith,
            only i running,
            λ j a b. absurd (omega (arith, a, b)),
            (i, refl, ok),
          )
      | inr (e, failed) ↦ elim (Bool-cases (w.is_retryable e)) [
        | inr final ↦
            let q : attempt w i again ≡ (suc i, error e) = rw (running, failed) (simp final) in
            subst (Outcome i last) (sym q) (
              omega arith,
              omega arith,
              only i running,
              λ j a b. absurd (omega (arith, a, b)),
              (i, refl, failed, inl final),
            )
        | inl retryable ↦
            let q : attempt w i again ≡ again e = rw (running, failed) (simp retryable) in
            subst (Outcome i last) (sym q) (later e running failed retryable)
      ]
    ]
  ]

  Ends-last :
      (last last' calls : ℕ) (r : Returned E)
      → last ≡ last'
      → Ends last calls r
      → Ends last' calls r
  Ends-last last last' calls r e h = subst (λ n. Ends n calls r) e h

  attempts-Outcome : (left i : ℕ) → Outcome i (i + left) (attempts w left i)
  unfolding attempts
  attempts-Outcome zero i =
      attempt-Outcome i (i + 0) (λ e. (suc i, error e)) (omega arith)
        (λ e running failed ok. (
          omega arith,
          omega arith,
          only i running,
          λ j a b. absurd (omega (arith, a, b)),
          (i, refl, failed, inr (omega arith)),
        ))
  attempts-Outcome (suc left) i =
      attempt-Outcome i (i + suc left) _ (omega arith) (λ e running failed ok.
        elim (Bool-cases (w.done_waiting i)) [
          | inl over ↦ simp over (
            omega arith,
            omega arith,
            only i running,
            λ j a b. absurd (omega (arith, a, b)),
            inr (i, refl, omega arith, (e, failed, ok), over),
          )
          | inr waited ↦
              let (above, below, open_, retried, ends) = attempts-Outcome left (suc i) in
              simp waited (
                omega (arith, above),
                omega (arith, below),
                λ j a b. elim (Bool-cases (j == i)) [
                  | inl same ↦
                      let q : i ≡ j = ground arith in subst (λ n. w.done_before n ≡ false) q running
                  | inr other ↦ let q : suc i ≤ j = ground arith in open_ j q b
                ],
                λ j a b. elim (Bool-cases (j == i)) [
                  | inl same ↦
                      let q : i ≡ j = ground arith in
                      subst (λ n. Retried n × (w.done_waiting n ≡ false)) q
                        ((e, failed, ok), waited)
                  | inr other ↦ let q : suc i ≤ j = ground arith in retried j q b
                ],
                Ends-last (suc i + left) (i + suc left) _ _ (omega arith) ends,
              )
        ])

-- DoWithKey calls the operation at most once more than it may retry; before every call the context was open;
-- every call but the last returned an error that may be tried again, and the context stayed open during the
-- wait behind it; and it returns success only where the last call succeeded, an error only where the last
-- call returned it and it may not be tried again or no retry was left, and a timeout only where the context
-- was done before the next call or during the wait for a retry.
pub do_with_key-Outcome :
    {E : Type 0} (w : World E) (max_retries : ℕ)
    → Outcome w 0 max_retries (do_with_key w max_retries)
unfolding do_with_key
do_with_key-Outcome w max_retries =
    let q : 0 + max_retries ≡ max_retries = omega arith in
    subst (λ n. Outcome w 0 n (attempts w max_retries 0)) q (attempts-Outcome w max_retries 0)
