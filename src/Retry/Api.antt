-- ===== src/Retry/Api.antt =====
-- The end of RetryAPICall's loop: what it retries, and which error it returns.
use native.Mathlib.Decide.{ℕ_discrete}
use mathlib.Core.Path.{subst}
use osconfig.Base.{
  ℕ, zero, suc, ◌+◌, ◌≤◌, ◌<◌, ◌≡◌, refl, sym, inl, inr, true, Option, none, some, arith, ltb, ◌↔◌,
  if◌then◌else◌, Bool-cases, Option-cases,
}
use osconfig.Retry.{
  retry_sleep, Retried, Status, is_retriable, is_resource_exhausted, ErrorView, ApiError, plain,
  Code, aborted, deadline_exceeded, internal, resource_exhausted, unavailable, other_code,
  no_service_account, status_error, human_readable_error, retry_api_from, retry_api_call,
}
use osconfig.Retry.Bounds.{retry_sleep-pos}

-- The codes that gRPC's documentation calls transient, by which a call may be made again.
abbrev pub IsTransient : Code → Type 0
IsTransient aborted = Unit
IsTransient deadline_exceeded = Unit
IsTransient internal = Unit
IsTransient resource_exhausted = Unit
IsTransient unavailable = Unit
IsTransient (other_code n) = ⊥

-- After ResourceExhausted the base of the sleep has ten added, else one.
abbrev pub extra_of : Code → ℕ
extra_of resource_exhausted = 10
extra_of aborted = 1
extra_of deadline_exceeded = 1
extra_of internal = 1
extra_of unavailable = 1
extra_of (other_code n) = 1

is_retriable-IsTransient : (s : Status) → (is_retriable s ≡ true) ↔ IsTransient s.code
unfolding is_retriable
is_retriable-IsTransient s = go s.code
  where
    go :
        (c : Code)
        → (is_retriable (record { code = c; message = s.message }) ≡ true) ↔ IsTransient c
    go aborted = (λ _. tt, λ _. refl)
    go deadline_exceeded = (λ _. tt, λ _. refl)
    go internal = (λ _. tt, λ _. refl)
    go resource_exhausted = (λ _. tt, λ _. refl)
    go unavailable = (λ _. tt, λ _. refl)
    go (other_code n) = (λ e. absurd (cc), λ h. absurd h)

extra_same : (s : Status) → (if is_resource_exhausted s then 10 else 1) ≡ extra_of s.code
unfolding is_resource_exhausted
extra_same s = go s.code
  where
    go :
        (c : Code)
        → (if is_resource_exhausted (record { code = c; message = s.message }) then 10 else 1)
          ≡ extra_of c
    go aborted = refl
    go deadline_exceeded = refl
    go internal = refl
    go resource_exhausted = refl
    go unavailable = refl
    go (other_code n) = refl

module _ {E : Type 0} (view : ErrorView E) (intn : ℕ → ℕ → ℕ) (max_retry_time : ℕ) where
  module _ (f : ℕ → Option E) where
    -- A failed call whose error carries a status that may be tried again.
    pub record FailedRetriably (j : ℕ) : Type 0 where
      pub error : E
      pub status : Status
      pub failed : f j ≡ some error
      pub has_status : view.from_error error ≡ some status
      pub retriable : IsTransient status.code

    -- The error returned, by the kind of the last call's error.
    pub record ApiEnded (r : Retried (ApiError E)) : Type 0 where
      pub in_time : r.slept ≤ max_retry_time
      pub earlier : (j : ℕ) → 0 < j → j < r.attempts → FailedRetriably j
      pub on_success : f r.attempts ≡ none → r.outcome ≡ none
      pub on_plain :
          (e : E) → f r.attempts ≡ some e → view.from_error e ≡ none → r.outcome ≡ some (plain e)
      pub on_refused :
          (e : E) (s : Status)
          → f r.attempts ≡ some e
          → view.from_error e ≡ some s
          → ¬ (IsTransient s.code)
          → r.outcome ≡ some (if view.is_not_defined e then no_service_account else status_error s)
      pub on_late :
          (e : E) (s : Status)
          → f r.attempts ≡ some e
          → view.from_error e ≡ some s
          → IsTransient s.code
          → (r.outcome ≡ some (status_error s))
            × (max_retry_time
                < r.slept + retry_sleep (intn r.attempts) r.attempts (extra_of s.code))

    earlier_step :
        (i : ℕ)
        → FailedRetriably i
        → ((j : ℕ) → 0 < j → j < i → FailedRetriably j)
        → (j : ℕ) → 0 < j
        → j < suc i
        → FailedRetriably j
    earlier_step i now before j p q = elim (ℕ_discrete j i) [
      | yes e ↦ subst FailedRetriably (sym e) now
      | no ne ↦ before j p (omega arith)
    ]

    -- What the loop shows on, whatever happens from attempt `i` on.
    abbrev Returns : Option (Retried (ApiError E)) → Type 0
    Returns o = (r : Retried (ApiError E)) × (o ≡ some r) × ApiEnded r

    retry_api_from-ApiEnded :
        (fuel i tot : ℕ)
        → 0 < i
        → max_retry_time < fuel + tot
        → tot ≤ max_retry_time
        → ((j : ℕ) → 0 < j → j < i → FailedRetriably j)
        → Returns (retry_api_from view intn max_retry_time f fuel i tot)
    unfolding retry_api_from human_readable_error
    retry_api_from-ApiEnded zero i tot p h le before = absurd (omega arith)
    retry_api_from-ApiEnded (suc fuel) i tot p h le before = elim (Option-cases (f i)) [
      | inl e ↦ (
        record { outcome = none; attempts = i; slept = tot },
        ground arith,
        record {
          in_time = le;
          earlier = before;
          on_success = λ _. refl;
          on_plain = λ x q. cc;
          on_refused = λ x s q. cc;
          on_late = λ x s q r t. absurd (cc);
        },
      )
      | inr (x, e) ↦ elim (Option-cases (view.from_error x)) [
        | inl no_status ↦ (
          record { outcome = some (plain x); attempts = i; slept = tot },
          ground arith,
          record {
            in_time = le;
            earlier = before;
            on_success = λ q. cc;
            on_plain = λ y q r. cc;
            on_refused = λ y s q r t. absurd (cc);
            on_late = λ y s q r t. absurd (cc);
          },
        )
        | inr (s, has) ↦ elim (Bool-cases (is_retriable s)) [
          | inl again ↦
              let ns = retry_sleep (intn i) i (extra_of s.code) in
              elim (Bool-cases (ltb max_retry_time (tot + ns))) [
                | inl over ↦ (
                  record { outcome = some (status_error s); attempts = i; slept = tot },
                  ground (arith, extra_same s),
                  record {
                    in_time = le;
                    earlier = before;
                    on_success = λ q. absurd (cc);
                    on_plain = λ y q r. absurd (cc);
                    on_refused = λ y t q r u. absurd (u ((is_retriable-IsTransient t).0 cc));
                    on_late = λ y t q r u.
                        let same : s ≡ t = cc in
                        (
                          cc,
                          subst
                              (λ z. max_retry_time < tot + retry_sleep (intn i) i (extra_of z.code))
                              same (ground arith),
                        );
                  },
                )
                | inr within ↦
                    let (r, eq, good) =
                      retry_api_from-ApiEnded fuel (suc i) (tot + ns) (omega arith)
                        (ground (arith, retry_sleep-pos (intn i) i (extra_of s.code)))
                        (ground arith)
                        (earlier_step i
                          (record {
                            error = x;
                            status = s;
                            failed = e;
                            has_status = has;
                            retriable = (is_retriable-IsTransient s).0 again;
                          })
                          before) in
                    (r, ground (arith, extra_same s), good)
              ]
          | inr refused ↦ (
            record { outcome = some (human_readable_error view x s); attempts = i; slept = tot },
            ground arith,
            record {
              in_time = le;
              earlier = before;
              on_success = λ q. absurd (cc);
              on_plain = λ y q r. absurd (cc);
              on_refused = λ y t q r u. cc;
              on_late = λ y t q r u.
                  let z : is_retriable t ≡ true = (is_retriable-IsTransient t).1 u in absurd (cc);
            },
          )
        ]
      ]
    ]

-- `RetryAPICall` returns, and the time slept stays within the limit. It calls again only after an
-- error with a transient code. It returns no error after a success, and the error itself where it
-- carries no status. Where the code is not transient, it returns that there is no service account if the
-- error says that the metadata are not defined, and else the status's error; and where the code is
-- transient, the status's error, as one more sleep would pass the limit.
pub retry_api_call-ApiEnded :
    {E : Type 0} (view : ErrorView E) (intn : ℕ → ℕ → ℕ) (max_retry_time : ℕ) (f : ℕ → Option E)
    → (r : Retried (ApiError E)) × (retry_api_call view intn max_retry_time f ≡ some r)
      × ApiEnded view intn max_retry_time f r
unfolding retry_api_call
retry_api_call-ApiEnded view intn max_retry_time f =
    retry_api_from-ApiEnded view intn max_retry_time f (suc max_retry_time) 1 0 (omega arith)
      (omega arith) (omega arith) (λ j p q. absurd (omega arith))
