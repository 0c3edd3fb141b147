-- ===== src/Retry.antt =====
-- retryutil/retry.go. The closure that is retried is the list of what its calls return, by the
-- number of the attempt; `rand.Intn` is `intn`, by the attempt too. Times are in seconds.
pub mod Bounds
pub mod Api
mod Tests
use osconfig.Base.{
  ℕ, zero, suc, ◌+◌, ◌*◌, min, String, Bool, true, false, Option, none, some, ltb, if◌then◌else◌,
}

-- `RetrySleep`: the factor of the backoff is `base + extra`, capped at 300 seconds. The float
-- arithmetic of the source is exact at such numbers.
unfoldable pub retry_sleep : (ℕ → ℕ) → ℕ → ℕ → ℕ
retry_sleep intn base extra = min ((base + extra) * base + intn (base + extra)) 300

-- How a retry loop ended: the error that it returned, the attempts made and the time slept.
pub record Retried (E : Type 0) : Type 0 where
  pub outcome : Option E
  pub attempts : ℕ
  pub slept : ℕ

module _ {E : Type 0} (intn : ℕ → ℕ → ℕ) (max_retry_time : ℕ) (f : ℕ → Option E) where
  -- The loop of `RetryFunc` from attempt `i` on. `none`: the fuel ran out.
  unfoldable pub retry_from : ℕ → ℕ → ℕ → Option (Retried E)
  retry_from zero i tot = none
  retry_from (suc fuel) i tot = elim (f i) [
    | none ↦ some (record { outcome = none; attempts = i; slept = tot })
    | some e ↦
        let ns = retry_sleep (intn i) i 0 in
        elim (ltb max_retry_time (tot + ns)) [
          | true ↦ some (record { outcome = some e; attempts = i; slept = tot })
          | false ↦ retry_from fuel (suc i) (tot + ns)
        ]
  ]

  -- Every round but the last sleeps a second at least, so this fuel is enough.
  unfoldable pub retry_func : Option (Retried E)
  unfolding retry_from
  retry_func = retry_from (suc max_retry_time) 1 0

-- The codes that `isRetriable` names, and the others.
pub data Code : Type 0 where
  aborted deadline_exceeded internal resource_exhausted unavailable : Code
  other_code : ℕ → Code

pub record Status : Type 0 where
  pub code : Code
  pub message : String

unfoldable pub is_retriable : Status → Bool
is_retriable s = elim s.code [
  | aborted ↦ true
  | deadline_exceeded ↦ true
  | internal ↦ true
  | resource_exhausted ↦ true
  | unavailable ↦ true
  | other_code n ↦ false
]

unfoldable pub is_resource_exhausted : Status → Bool
is_resource_exhausted s = elim s.code [ resource_exhausted ↦ true | _ ↦ false ]

-- What the gRPC and the metadata packages tell of an error: `status.FromError`, and whether
-- `errors.As` finds a `metadata.NotDefinedError` in it.
pub record ErrorView (E : Type 0) : Type 0 where
  pub from_error : E → Option Status
  pub is_not_defined : E → Bool

-- What `RetryAPICall` returns: the error itself, or one that it makes of a status.
pub data ApiError (E : Type 0) : Type 0 where
  plain : E → ApiError E
  no_service_account : ApiError E
  status_error : Status → ApiError E

unfoldable pub error_from_status : {E : Type 0} → Status → ApiError E
error_from_status s = status_error s

unfoldable pub human_readable_error : {E : Type 0} → ErrorView E → E → Status → ApiError E
unfolding error_from_status
human_readable_error v e s = if v.is_not_defined e then no_service_account else error_from_status s

module _ {E : Type 0} (view : ErrorView E) (intn : ℕ → ℕ → ℕ) (max_retry_time : ℕ) where
  module _ (f : ℕ → Option E) where
    -- The loop of `RetryAPICall` from attempt `i` on.
    unfoldable pub retry_api_from : ℕ → ℕ → ℕ → Option (Retried (ApiError E))
    unfolding error_from_status
    retry_api_from zero i tot = none
    retry_api_from (suc fuel) i tot = elim (f i) [
      | none ↦ some (record { outcome = none; attempts = i; slept = tot })
      | some e ↦ elim (view.from_error e) [
        | none ↦ some (record { outcome = some (plain e); attempts = i; slept = tot })
        | some s ↦ elim (is_retriable s) [
          | false ↦
              some (record {
                outcome = some (human_readable_error view e s);
                attempts = i;
                slept = tot;
              })
          | true ↦
              let extra = if is_resource_exhausted s then 10 else 1 in
              let ns = retry_sleep (intn i) i extra in
              elim (ltb max_retry_time (tot + ns)) [
                | true ↦
                    some
                      (record { outcome = some (error_from_status s); attempts = i; slept = tot })
                | false ↦ retry_api_from fuel (suc i) (tot + ns)
              ]
        ]
      ]
    ]

    unfoldable pub retry_api_call : Option (Retried (ApiError E))
    unfolding retry_api_from
    retry_api_call = retry_api_from (suc max_retry_time) 1 0
