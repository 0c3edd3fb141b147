-- ===== src/Notifications/Tests.antt =====
-- Two notifications while another task runs, and the theorem at the state that they lead to.
use osconfig.Base.{◌≡◌, true, false, ◌&&◌, ◌||◌}
use osconfig.Notifications.{
  State, receiving, holding, idle, notified, handed, ignored, Reached, at_start, after,
}
use osconfig.Notifications.Queue.{enqueues, holds, Reached-Queue}

abbrev one_held : State
one_held = record { handler = receiving; noti = true; tasker = holding; cancelled = false }

one_held-Reached : Reached one_held
one_held-Reached =
    after (after (after at_start (notified idle false)) (handed true false)) (ignored holding)

Reached-Queue_example :
    ((enqueues receiving && holds holding) ≡ false)
    × ((enqueues receiving || holds holding) ≡ true → true ≡ true)
    × (false ≡ false → true ≡ true → (enqueues receiving || holds holding) ≡ true)
Reached-Queue_example = Reached-Queue one_held one_held-Reached
