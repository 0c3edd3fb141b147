-- ===== src/Waiting/Ends.antt =====
-- How long the loop of `WaitForTaskNotification` keeps trying.
use mathlib.Core.Path.{subst}
use osconfig.Base.{
  ℕ, zero, suc, ◌+◌, ◌≤◌, ◌<◌, ◌≡◌, ◌≢◌, refl, ap, true, ◌⊎◌, inl, inr, Option, none, some, All,
  leb, if-split, arith,
}
use osconfig.Retry.{retry_sleep}
use osconfig.Waiting.{
  WaitError, service_not_enabled, exhausted, no_account, other, wait_for_task, Waiting, Env, Round,
  ended, going, on_error, round, wait_loop, new_waiting,
}

-- What the wait of a round returns.
abbrev pub answer : Env → ℕ → Option WaitError
answer env i = wait_for_task (env.receive i) (env.stream i)

-- The rounds, of `n` from `i` on, whose error is not `ResourceExhausted`.
abbrev pub counted : Option WaitError → ℕ
counted none = 0
counted (some exhausted) = 0
counted (some e) = 1

abbrev pub failures : Env → ℕ → ℕ → ℕ
failures env zero i = 0
failures env (suc n) i = counted (answer env i) + failures env n (suc i)

retry_sleep_cap : (intn : ℕ → ℕ) (base extra : ℕ) → retry_sleep intn base extra ≤ 300
unfolding retry_sleep
retry_sleep_cap intn base extra = omega arith

-- In a state between two rounds fewer than ten errors are counted, and no sleep is above five minutes.
pub record Patient (s : Waiting) : Type 0 where
  pub few : s.errs < 10
  pub short : All (λ t. t ≤ 300) s.sleeps

-- Why the loop ends in a round, whose wait gave `o`, where so many errors have been counted before it.
abbrev Reason : Env → ℕ → Option WaitError → ℕ → Type 0
Reason env i o before =
    (env.cancelled i ≡ true)
    ⊎ ((o ≡ some service_not_enabled)
        ⊎ ((o ≡ some no_account) ⊎ ((o ≡ some other) × (before + 1 ≡ 10))))

-- What a round leaves: an end, with no sleep above five minutes and for a reason, or a state with the
-- errors counted.
abbrev Left : Env → ℕ → Option WaitError → Waiting → Round → Type 0
Left env i o s (ended t) = All (λ x. x ≤ 300) t.sleeps × Reason env i o s.errs
Left env i o s (going t) = Patient t × (o ≢ none → t.errs ≡ s.errs + counted o)

-- Why a loop ends that begins in round `i`: in its `k`-th round the context is done, the service is not
-- enabled, there is no service account, or the tenth error is counted.
pub data Ends (env : Env) (i before : ℕ) : Type 0 where
  cancelled_in : (k : ℕ) → env.cancelled (i + k) ≡ true → Ends env i before
  disabled_in : (k : ℕ) → answer env (i + k) ≡ some service_not_enabled → Ends env i before
  no_account_in : (k : ℕ) → answer env (i + k) ≡ some no_account → Ends env i before
  given_up_in :
      (k : ℕ)
      → answer env (i + k) ≡ some other
      → before + failures env (suc k) i ≡ 10
      → Ends env i before

module _ (env : Env) where
  on_error-Left :
      (i : ℕ) (e : WaitError) (s : Waiting) → Patient s → Left env i (some e) s (on_error env i e s)
  unfolding on_error
  on_error-Left i service_not_enabled s p = (p.short, inr (inl refl))
  on_error-Left i no_account s p = (p.short, inr (inr (inl refl)))
  on_error-Left i exhausted s p =
      (record { few = p.few; short = (retry_sleep_cap _ _ _, p.short) }, λ _. omega arith)
  on_error-Left i other s p =
      if-split (Left env i (some other) s) (leb 10 (s.errs + 1))
        (λ many. (p.short, inr (inr (inr (refl, ground (arith, p.few))))))
        (λ below.
          (record { few = ground arith; short = (retry_sleep_cap _ _ _, p.short) }, λ _. refl))

  round-Left : (i : ℕ) (s : Waiting) → Patient s → Left env i (answer env i) s (round env i s)
  unfolding round
  round-Left i s p =
      if-split (Left env i (answer env i) s) (env.cancelled i) (λ stop. (p.short, inl stop))
        (λ _. answered (answer env i))
    where
      answered :
          (o : Option WaitError)
          → Left env i o s (elim o as (λ _. Round) [
            | none ↦ going (record s { errs = 0 })
            | some e ↦ on_error env i e s
          ])
      answered none = (record { few = omega arith; short = p.short }, λ ne. absurd (ne refl))
      answered (some e) = on_error-Left i e s p

  Ends-now : (i before : ℕ) → Reason env i (answer env i) before → Ends env i before
  Ends-now i before (inl stop) =
      cancelled_in 0 (subst (λ j. env.cancelled j ≡ true) (omega arith) stop)
  Ends-now i before (inr (inl e)) =
      disabled_in 0 (subst (λ j. answer env j ≡ some service_not_enabled) (omega arith) e)
  Ends-now i before (inr (inr (inl e))) =
      no_account_in 0 (subst (λ j. answer env j ≡ some no_account) (omega arith) e)
  Ends-now i before (inr (inr (inr (e, ten)))) =
      let one : counted (answer env i) ≡ 1 = ap counted e in
      given_up_in 0 (subst (λ j. answer env j ≡ some other) (omega arith) e)
        (omega (arith, one, ten))

  Ends-later :
      (i before between : ℕ)
      → between ≡ before + counted (answer env i)
      → Ends env (suc i) between
      → Ends env i before
  Ends-later i before between same (cancelled_in k e) =
      cancelled_in (suc k) (subst (λ j. env.cancelled j ≡ true) (omega arith) e)
  Ends-later i before between same (disabled_in k e) =
      disabled_in (suc k) (subst (λ j. answer env j ≡ some service_not_enabled) (omega arith) e)
  Ends-later i before between same (no_account_in k e) =
      no_account_in (suc k) (subst (λ j. answer env j ≡ some no_account) (omega arith) e)
  Ends-later i before between same (given_up_in k e ten) =
      given_up_in (suc k) (subst (λ j. answer env j ≡ some other) (omega arith) e)
        (omega (arith, same, ten))

  -- A loop that has ended, with no sleep above five minutes, and why.
  abbrev pub EndsWithin : ℕ → ℕ → Waiting → Type 0
  EndsWithin n i s =
      (t : Waiting) × (wait_loop env n i s ≡ some t)
      × All (λ x. x ≤ 300) t.sleeps
      × Ends env i s.errs

  wait_loop-ends :
      (n i : ℕ) (s : Waiting)
      → Patient s
      → ((j : ℕ) → answer env j ≢ none)
      → 10 ≤ s.errs + failures env n i
      → EndsWithin n i s
  unfolding wait_loop
  wait_loop-ends zero i s p failing many = absurd (omega (arith, p.few))
  wait_loop-ends (suc n) i s p failing many =
      left (round env i s) (round-Left i s p) (λ t. wait_loop-ends n (suc i) t)
    where
      left :
          (r : Round)
          → Left env i (answer env i) s r
          → ((t : Waiting)
              → Patient t
              → ((j : ℕ) → answer env j ≢ none)
              → 10 ≤ t.errs + failures env n (suc i)
              → EndsWithin n (suc i) t)
          → (u : Waiting) × ((elim r as (λ _. Option Waiting) [
            | ended t ↦ some t
            | going t ↦ wait_loop env n (suc i) t
          ])
              ≡ some u)
            × All (λ x. x ≤ 300) u.sleeps
            × Ends env i s.errs
      left (ended t) h more = (t, refl, h.0, Ends-now i s.errs h.1)
      left (going t) h more =
          let same = h.1 (failing i) in
          let (u, eq, short, why) = more t h.0 failing (omega (arith, same, many)) in
          (u, eq, short, Ends-later i s.errs t.errs same why)

-- If no wait succeeds, `WaitForTaskNotification` returns within the round of the tenth error other than
-- ResourceExhausted, however these are mixed, and sleeps five minutes at most at a time. It does not
-- return before that round, unless the context is done, the service is not enabled, or there is no
-- service account.
pub wait_for_task_notification-ends :
    (env : Env) (n : ℕ)
    → ((j : ℕ) → answer env j ≢ none)
    → 10 ≤ failures env n 0
    → EndsWithin env n 0 new_waiting
wait_for_task_notification-ends env n failing many =
    wait_loop-ends env n 0 new_waiting (record { few = omega arith; short = tt }) failing
      (omega (arith, many))
