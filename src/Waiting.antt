-- ===== src/Waiting.antt =====
-- `waitForTask` and the loop of `WaitForTaskNotification` in agentendpoint/agentendpoint.go.
pub mod Ends
mod Tests
use osconfig.Base.{
  ℕ, zero, suc, ◌+◌, Bool, true, false, Option, none, some, List, [], ◌∷◌, leb, if◌then◌else◌,
}
use osconfig.Retry.{retry_sleep}

-- An error of the stream: its end, one with a gRPC status, that the instance has no service account,
-- or another one.
pub data StreamError : Type 0 where
  eof permission_denied resource_exhausted other_status : StreamError
  not_defined unknown : StreamError

-- What `WaitForTaskNotification` tells apart of an error.
pub data WaitError : Type 0 where
  service_not_enabled exhausted no_account other : WaitError

-- An error that is returned as it is.
abbrev pub as_is : StreamError → WaitError
as_is not_defined = no_account
as_is _ = other

-- `waitForTask`, from the errors of `receiveTaskNotification` and of `handleStream`. The status of an
-- error of the first is not looked at.
unfoldable pub wait_for_task : Option StreamError → Option StreamError → Option WaitError
wait_for_task (some e) stream = some (as_is e)
wait_for_task none none = none
wait_for_task none (some eof) = none
wait_for_task none (some permission_denied) = some service_not_enabled
wait_for_task none (some resource_exhausted) = some exhausted
wait_for_task none (some e) = some (as_is e)

-- The counters of the goroutine, the sleeps so far, the latest first, and whether it closed the client.
pub record Waiting : Type 0 where
  pub resource_exhausted : ℕ
  pub errs : ℕ
  pub sleeps : List ℕ
  pub closed : Bool

-- The surroundings, by the number of the round: is the context done, what the two calls return, and
-- `rand.Intn`.
pub record Env : Type 0 where
  pub cancelled : ℕ → Bool
  pub receive : ℕ → Option StreamError
  pub stream : ℕ → Option StreamError
  pub intn : ℕ → ℕ → ℕ

-- What a round does: the goroutine returns, or goes on.
pub data Round : Type 0 where
  ended going : Waiting → Round

abbrev pub close : Waiting → Waiting
close s = record s { closed = true }

module _ (env : Env) where
  -- What a round does with an error.
  unfoldable pub on_error : ℕ → WaitError → Waiting → Round
  on_error i service_not_enabled s = ended (close s)
  on_error i no_account s = ended (close s)
  on_error i exhausted s = going (record s {
    resource_exhausted = s.resource_exhausted + 1;
    sleeps = retry_sleep (env.intn i) (s.resource_exhausted + 1) 5 ∷ s.sleeps;
  })
  on_error i other s =
      if leb 10 (s.errs + 1)
      then ended (record s { resource_exhausted = 0; errs = s.errs + 1; closed = true })
      else going (record s {
        resource_exhausted = 0;
        errs = s.errs + 1;
        sleeps = retry_sleep (env.intn i) (s.errs + 1) 0 ∷ s.sleeps;
      })

  -- One round of the loop. A wait without an error clears the count of errors, and not the one of
  -- `ResourceExhausted`.
  unfoldable pub round : ℕ → Waiting → Round
  round i s =
      if env.cancelled i then ended s else elim (wait_for_task (env.receive i) (env.stream i)) [
        | none ↦ going (record s { errs = 0 })
        | some e ↦ on_error i e s
      ]

  -- The loop from a round on. `none`: it has not ended after so many rounds.
  unfoldable pub wait_loop : ℕ → ℕ → Waiting → Option Waiting
  wait_loop zero i s = none
  wait_loop (suc fuel) i s = elim (round i s) [
    | ended s' ↦ some s'
    | going s' ↦ wait_loop fuel (suc i) s'
  ]

-- `WaitForTaskNotification` for a client on which it does not run yet.
abbrev pub new_waiting : Waiting
new_waiting = record { resource_exhausted = 0; errs = 0; sleeps = []; closed = false }
