-- ===== src/Notifications.antt =====
-- `handleStream` of agentendpoint/agentendpoint.go with the queue of tasker/tasker.go, as a step
-- relation: the goroutine of the stream, the one of the tasker, and whoever closes the client. A stream
-- that ends is opened again, which changes nothing here.
pub mod Queue
mod Tests
use osconfig.Base.{Bool, true, false}

-- Where the goroutine of the stream is: in `Recv`, in `Enqueue` at the send to the unbuffered channel
-- of the tasker, or returned since the client is closed.
pub data Handler : Type 0 where
  receiving enqueuing returned : Handler

-- Where the tasker is: at its channel, with the closure of a notification before it has the lock, in
-- `runTask` with the lock, or in a task of another part of the agent.
pub data Tasker : Type 0 where
  idle holding running busy : Tasker

-- `noti` is the channel of capacity 1: is the token in it? `cancelled` is the end of the context.
pub record State : Type 0 where
  pub handler : Handler
  pub noti : Bool
  pub tasker : Tasker
  pub cancelled : Bool

abbrev pub start : State
start = record { handler = receiving; noti = false; tasker = idle; cancelled = false }

-- One step. A select with several cases ready may take any of them, and the default only if none is.
-- The client is closed under the lock that a running task holds.
pub data Step : State → State → Type 0 where
  notified :
      (t : Tasker) (c : Bool)
      → Step
          (record { handler = receiving; noti = false; tasker = t; cancelled = c })
          (record { handler = enqueuing; noti = true; tasker = t; cancelled = c })
  ignored :
      (t : Tasker)
      → Step
          (record { handler = receiving; noti = true; tasker = t; cancelled = false })
          (record { handler = receiving; noti = true; tasker = t; cancelled = false })
  stopped :
      (n : Bool) (t : Tasker)
      → Step
          (record { handler = receiving; noti = n; tasker = t; cancelled = true })
          (record { handler = returned; noti = n; tasker = t; cancelled = true })
  handed :
      (n c : Bool)
      → Step
          (record { handler = enqueuing; noti = n; tasker = idle; cancelled = c })
          (record { handler = receiving; noti = n; tasker = holding; cancelled = c })
  begun :
      (h : Handler)
      → Step
          (record { handler = h; noti = true; tasker = holding; cancelled = false })
          (record { handler = h; noti = false; tasker = running; cancelled = false })
  dropped :
      (h : Handler) (n : Bool)
      → Step
          (record { handler = h; noti = n; tasker = holding; cancelled = true })
          (record { handler = h; noti = n; tasker = idle; cancelled = true })
  finished :
      (h : Handler) (n c : Bool)
      → Step
          (record { handler = h; noti = n; tasker = running; cancelled = c })
          (record { handler = h; noti = n; tasker = idle; cancelled = c })
  other_begun :
      (h : Handler) (n c : Bool)
      → Step
          (record { handler = h; noti = n; tasker = idle; cancelled = c })
          (record { handler = h; noti = n; tasker = busy; cancelled = c })
  other_finished :
      (h : Handler) (n c : Bool)
      → Step
          (record { handler = h; noti = n; tasker = busy; cancelled = c })
          (record { handler = h; noti = n; tasker = idle; cancelled = c })
  closed_idle :
      (h : Handler) (n c : Bool)
      → Step
          (record { handler = h; noti = n; tasker = idle; cancelled = c })
          (record { handler = h; noti = n; tasker = idle; cancelled = true })
  closed_holding :
      (h : Handler) (n c : Bool)
      → Step
          (record { handler = h; noti = n; tasker = holding; cancelled = c })
          (record { handler = h; noti = n; tasker = holding; cancelled = true })
  closed_busy :
      (h : Handler) (n c : Bool)
      → Step
          (record { handler = h; noti = n; tasker = busy; cancelled = c })
          (record { handler = h; noti = n; tasker = busy; cancelled = true })
  -- The context that the client was given ends while a task runs; this needs no lock.
  cancelled_running :
      (h : Handler) (n c : Bool)
      → Step
          (record { handler = h; noti = n; tasker = running; cancelled = c })
          (record { handler = h; noti = n; tasker = running; cancelled = true })

-- The states that a client reaches.
pub data Reached : State → Type 0 where
  at_start : Reached start
  after : {s t : State} → Reached s → Step s t → Reached t
