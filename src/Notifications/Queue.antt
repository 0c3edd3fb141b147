-- ===== src/Notifications/Queue.antt =====
-- The queue of notifications holds one at most, and its token is where `<-c.noti` expects it.
use osconfig.Base.{◌≡◌, refl, Bool, true, false, not, ◌&&◌, ◌||◌, if◌then◌else◌, arith}
use osconfig.Notifications.{
  Handler, enqueuing, Tasker, holding, State, Step, notified, ignored, stopped, handed, begun,
  dropped, finished, other_begun, other_finished, closed_idle, closed_holding, closed_busy,
  cancelled_running, Reached, at_start, after,
}

-- Is a notification queued: is it being handed to the tasker, or held by it before its task?
abbrev pub enqueues : Handler → Bool
enqueues enqueuing = true
enqueues _ = false

abbrev pub holds : Tasker → Bool
holds holding = true
holds _ = false

abbrev sound : Handler → Bool → Tasker → Bool → Bool
sound h n t c = not (enqueues h && holds t) && (if enqueues h || holds t then n else c || not n)

abbrev Sound : State → Type 0
Sound s = sound s.handler s.noti s.tasker s.cancelled ≡ true

Step-Sound : {s t : State} → Step s t → Sound s → Sound t
Step-Sound (notified t c) q = ground arith
Step-Sound (ignored t) q = q
Step-Sound (stopped n t) q = ground arith
Step-Sound (handed n c) q = ground arith
Step-Sound (begun h) q = ground arith
Step-Sound (dropped h n) q = ground arith
Step-Sound (finished h n c) q = ground arith
Step-Sound (other_begun h n c) q = ground arith
Step-Sound (other_finished h n c) q = ground arith
Step-Sound (closed_idle h n c) q = ground arith
Step-Sound (closed_holding h n c) q = ground arith
Step-Sound (closed_busy h n c) q = ground arith
Step-Sound (cancelled_running h n c) q = ground arith

Reached-Sound : {s : State} → Reached s → Sound s
Reached-Sound at_start = refl
Reached-Sound (after r step) = Step-Sound step (Reached-Sound r)

-- In every state that a client reaches one notification at most is queued, so beside the task that
-- runs one at most waits. While one is queued the token is in the channel, so that the receive of it
-- cannot block. Unless the client is closed, the token is there only while one is queued, so that a
-- notification is ignored only if the task of another is still to begin.
pub Reached-Queue :
    (s : State)
    → Reached s
    → ((enqueues s.handler && holds s.tasker) ≡ false)
      × ((enqueues s.handler || holds s.tasker) ≡ true → s.noti ≡ true)
      × (s.cancelled ≡ false → s.noti ≡ true → (enqueues s.handler || holds s.tasker) ≡ true)
Reached-Queue s r =
    let q : Sound s = Reached-Sound r in
    (ground arith, λ queued. ground arith, λ open_client token. ground arith)
