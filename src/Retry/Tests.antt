-- ===== src/Retry/Tests.antt =====
-- Runs of the retry loops, and the theorems at concrete data.
use osconfig.Base.{
  ℕ, ◌+◌, ◌*◌, ◌≤◌, ◌<◌, ◌-◌, min, ◌≡◌, refl, String, false, Option, none, some, arith, ltb,
  if◌then◌else◌,
}
use osconfig.Retry.{
  retry_sleep, Retried, retry_func, unavailable, ErrorView, ApiError, retry_api_call, is_retriable,
  is_resource_exhausted,
}
use osconfig.Retry.Bounds.{IsIntn, retry_sleep_bounds, Ended, retry_func-Ended, attempts-le_eight}
use osconfig.Retry.Api.{ApiEnded, retry_api_call-ApiEnded}

-- The largest random number.
abbrev top : ℕ → ℕ
top n = n - 1

abbrev tops : ℕ → ℕ → ℕ
tops i = top

-- The first two calls fail.
abbrev third_time : ℕ → Option String
third_time i = if ltb i 3 then some "busy" else none

abbrev never_works : ℕ → Option String
never_works i = some "busy"

third_time_run :
    retry_func tops 180 third_time ≡ some (record { outcome = none; attempts = 3; slept = 6 })
unfolding retry_func retry_sleep
third_time_run = refl

gives_up : Retried String
gives_up = record { outcome = some "busy"; attempts = 8; slept = 161 }

never_works_run : retry_func tops 180 never_works ≡ some gives_up
unfolding retry_func retry_sleep gives_up
never_works_run = refl

-- A failed call reports a state of the service; a message of its own is no status.
abbrev view : ErrorView String
view = record {
  from_error = λ e. some (record { code = unavailable; message = e });
  is_not_defined = λ e. false;
}

api_run :
    retry_api_call view tops 600 third_time
    ≡ some (record { outcome = none; attempts = 3; slept = 11 })
unfolding retry_api_call retry_sleep is_retriable is_resource_exhausted
api_run = refl

top-IsIntn : IsIntn top
top-IsIntn n p = omega arith

retry_sleep_bounds_example :
    (min ((2 + 5) * 2) 300 ≤ retry_sleep top 2 5)
    × (retry_sleep top 2 5 ≤ 300)
    × (retry_sleep top 2 5 < (2 + 5) * (2 + 1))
retry_sleep_bounds_example = retry_sleep_bounds top 2 5 top-IsIntn (omega arith)

retry_func-Ended_example :
    (r : Retried String) × (retry_func tops 180 never_works ≡ some r) × Ended tops 180 never_works r
retry_func-Ended_example = retry_func-Ended tops 180 never_works

attempts-le_eight_example : Retried.attempts gives_up ≤ 8
attempts-le_eight_example = attempts-le_eight tops never_works never_works_run

retry_api_call-ApiEnded_example :
    (r : Retried (ApiError String)) × (retry_api_call view tops 600 third_time ≡ some r)
    × ApiEnded view tops 600 third_time r
retry_api_call-ApiEnded_example = retry_api_call-ApiEnded view tops 600 third_time
