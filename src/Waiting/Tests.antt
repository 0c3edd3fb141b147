-- ===== src/Waiting/Tests.antt =====
-- A stream that always fails, and the theorem at it.
use osconfig.Base.{◌≤◌, false, none, some, arith}
use osconfig.Waiting.{Env, other_status, wait_for_task, new_waiting}
use osconfig.Waiting.Ends.{failures, EndsWithin, wait_for_task_notification-ends}

abbrev broken : Env
broken = record {
  cancelled = λ i. false;
  receive = λ i. none;
  stream = λ i. some other_status;
  intn = λ i n. 0;
}

ten_failures : 10 ≤ failures broken 10 0
unfolding wait_for_task
ten_failures = omega arith

wait_for_task_notification-ends_example : EndsWithin broken 10 0 new_waiting
unfolding wait_for_task
wait_for_task_notification-ends_example =
    wait_for_task_notification-ends broken 10 (λ j e. cc) ten_failures
