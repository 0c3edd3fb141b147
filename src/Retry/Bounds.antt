-- ===== src/Retry/Bounds.antt =====
-- RetrySleep's range, and the end of RetryFunc's loop.
use osconfig.Base.{
  ℕ, zero, suc, ◌+◌, ◌*◌, ◌≤◌, ◌<◌, min, ◌-◌, ◌≡◌, ◌≢◌, ◌∙◌, refl, sym, inl, inr, Option, none,
  some, arith, ltb, Bool-cases, Option-cases,
}
use native.Mathlib.Decide.{ℕ_discrete, dec_le}
use native.Mathlib.Nat.{le_trans}
use mathlib.Core.Option.{some-injective}
use mathlib.Core.Path.{subst}
use osconfig.Retry.{retry_sleep, Retried, retry_from, retry_func}

-- `rand.Intn n` lies below `n` when `n` is positive.
abbrev pub IsIntn : (ℕ → ℕ) → Type 0
IsIntn intn = (n : ℕ) → 0 < n → intn n < n

-- For a positive base the sleep is at least the product, capped at 300, and below the product with
-- the next base: the upper end is never reached.
pub retry_sleep_bounds :
    (intn : ℕ → ℕ) (base extra : ℕ)
    → IsIntn intn
    → 0 < base
    → (min ((base + extra) * base) 300 ≤ retry_sleep intn base extra)
      × (retry_sleep intn base extra ≤ 300)
      × (retry_sleep intn base extra < (base + extra) * (base + 1))
unfolding retry_sleep
retry_sleep_bounds intn base extra h p =
    let below : intn (base + extra) < base + extra = h (base + extra) (omega arith) in
    (omega arith, omega arith, grind arith)

pub retry_sleep-pos : (intn : ℕ → ℕ) (base extra : ℕ) → 0 < base → 0 < retry_sleep intn base extra
unfolding retry_sleep
retry_sleep-pos intn zero extra p = elim p [ ]
retry_sleep-pos intn (suc b) extra p = grind arith

-- The least time slept after `n` failed attempts.
abbrev pub backoff_floor : ℕ → ℕ
backoff_floor zero = 0
backoff_floor (suc n) = backoff_floor n + min (suc n * suc n) 300

suc_inj : {m n : ℕ} → suc m ≡ suc n → m ≡ n
suc_inj p = omega arith

module _ {E : Type 0} (intn : ℕ → ℕ → ℕ) (max_retry_time : ℕ) (f : ℕ → Option E) where
  -- What the loop promises of its result.
  pub record Ended (r : Retried E) : Type 0 where
    pub last : r.outcome ≡ f r.attempts
    pub earlier : (j : ℕ) → 0 < j → j < r.attempts → f j ≢ none
    pub in_time : r.slept ≤ max_retry_time
    pub gave_up :
        r.outcome ≢ none → max_retry_time < r.slept + retry_sleep (intn r.attempts) r.attempts 0
    pub paced : (n : ℕ) → r.attempts ≡ suc n → backoff_floor n ≤ r.slept

  earlier_step :
      (i : ℕ)
      → f i ≢ none
      → ((j : ℕ) → 0 < j → j < i → f j ≢ none)
      → (j : ℕ) → 0 < j
      → j < suc i
      → f j ≢ none
  earlier_step i now before j p q = elim (ℕ_discrete j i) [
    | yes e ↦ rw e now
    | no ne ↦ before j p (omega arith)
  ]

  sleep_floor : (n : ℕ) → min (suc n * suc n) 300 ≤ retry_sleep (intn (suc n)) (suc n) 0
  unfolding retry_sleep
  sleep_floor n = grind arith

  retry_from-Ended :
      (fuel n tot : ℕ)
      → max_retry_time < fuel + tot
      → tot ≤ max_retry_time
      → ((j : ℕ) → 0 < j → j < suc n → f j ≢ none)
      → backoff_floor n ≤ tot
      → (r : Retried E) × (retry_from intn max_retry_time f fuel (suc n) tot ≡ some r) × Ended r
  unfolding retry_from
  retry_from-Ended zero n tot h le before paced = absurd (omega arith)
  retry_from-Ended (suc fuel) n tot h le before paced = elim (Option-cases (f (suc n))) [
    | inl e ↦ (
      record { outcome = none; attempts = suc n; slept = tot },
      ground arith,
      record {
        last = sym e;
        earlier = before;
        in_time = le;
        gave_up = λ ne. absurd (ne refl);
        paced = λ m p. subst (λ k. backoff_floor k ≤ tot) (suc_inj p) paced;
      },
    )
    | inr (x, e) ↦
        elim (Bool-cases (ltb max_retry_time (tot + retry_sleep (intn (suc n)) (suc n) 0))) [
          | inl over ↦ (
            record { outcome = some x; attempts = suc n; slept = tot },
            ground arith,
            record {
              last = sym e;
              earlier = before;
              in_time = le;
              gave_up = λ ne. ground arith;
              paced = λ m p. subst (λ k. backoff_floor k ≤ tot) (suc_inj p) paced;
            },
          )
          | inr within ↦
              let (r, eq, good) =
                retry_from-Ended fuel (suc n) (tot + retry_sleep (intn (suc n)) (suc n) 0)
                  (ground (arith, retry_sleep-pos (intn (suc n)) (suc n) 0)) (ground arith)
                  (earlier_step (suc n) (λ q. cc) before) (omega (arith, sleep_floor n)) in
              (r, ground arith, good)
        ]
  ]

-- `RetryFunc` returns. It returns what its last call returned, every call before that one failed,
-- the time slept stays within the limit, and it gives up on an error only if one more sleep would
-- pass the limit.
pub retry_func-Ended :
    {E : Type 0} (intn : ℕ → ℕ → ℕ) (max_retry_time : ℕ) (f : ℕ → Option E)
    → (r : Retried E) × (retry_func intn max_retry_time f ≡ some r) × Ended intn max_retry_time f r
unfolding retry_func
retry_func-Ended intn max_retry_time f =
    retry_from-Ended intn max_retry_time f (suc max_retry_time) 0 0 (omega arith) (omega arith)
      (λ j p q. absurd (omega arith)) (omega arith)

backoff_floor_eight :
    (k : ℕ) → 204 ≤ backoff_floor (suc (suc (suc (suc (suc (suc (suc (suc k))))))))
backoff_floor_eight zero = omega arith
backoff_floor_eight (suc k) = omega (arith, backoff_floor_eight k)

attempts_capped : (a : ℕ) → ((n : ℕ) → a ≡ suc n → backoff_floor n ≤ 180) → a ≤ 8
attempts_capped a h = elim (dec_le a 8) [
  | yes small ↦ small
  | no big ↦ absurd (
      omega (
        arith,
        h (suc (suc (suc (suc (suc (suc (suc (suc (a - 9))))))))) (omega arith),
        backoff_floor_eight (a - 9),
      ))
]

-- The retry period of the patch task, 180 seconds, allows eight calls at most, whatever the random
-- numbers are.
pub attempts-le_eight :
    {E : Type 0} (intn : ℕ → ℕ → ℕ) (f : ℕ → Option E) {r : Retried E}
    → retry_func intn 180 f ≡ some r
    → r.attempts ≤ 8
attempts-le_eight intn f {r} e =
    let (r', e', good) = retry_func-Ended intn 180 f in
    let same : r' ≡ r = some-injective r' r (sym e' ∙ e) in
    let good' : Ended intn 180 f r = subst (Ended intn 180 f) same good in
    attempts_capped r.attempts λ n p. le_trans (good'.paced n p) good'.in_time
