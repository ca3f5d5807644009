-- ===== src/EventLoop.antt =====
-- The event polling of event_loop.cpp. A background thread (`eventPollingWorker`) asks CPython,
-- every 200 ms and while no request is out, to call `pollForEvents` on the main thread. The two
-- threads share `s_pollingRequested`; each access to it is a step of its own, so that every
-- interleaving is a sequence of steps. CPython's queue of pending calls is counted by the polls in
-- it, and whether `Py_AddPendingCall` finds room is up to the environment. `R_ProcessEvents` and
-- the outcome of `flush_std_buffers` are arguments.
pub mod Poll
pub mod Requests
pub mod Guarded
use pyreticulate.Base.{ℕ, zero, suc, ◌+◌, ◌≡◌, ◌≢◌, Bool, true, false, ◌==◌, not, if◌then◌else◌}
use pyreticulate.Signals.{Signals, in_scope}

-- Where the worker stands in its loop: asleep, past the test of the flag, past the write of the flag.
pub data Worker : Type 0 where
  sleeping tested raised : Worker

pub record Loop : Type 0 where
  pub requested : ℕ  -- s_pollingRequested
  pub flush_enabled : Bool  -- s_flush_std_buffers
  pub worker : Worker
  pub queued : ℕ  -- polls in CPython's queue
  pub messages : ℕ  -- calls of Rprintf
  pub signals : Signals

-- The flushing of stdout and stderr: `status` is what `flush_std_buffers` would return.
unfoldable pub flush : ℕ → Loop → Loop
flush status s =
    if s.flush_enabled
    then if status == 0 then s else record s { messages = s.messages + 1; flush_enabled = false }
    else s

-- `pollForEvents` behind its first write: flush, then let R process events in a suspending scope.
unfoldable pub poll_body : (Signals → Signals) → ℕ → Loop → Loop
unfolding flush in_scope
poll_body process_events status s =
    let s' = flush status s in record s' { signals = in_scope process_events s'.signals }

-- `pollForEvents`, as CPython calls it from its queue.
unfoldable pub poll_for_events : (Signals → Signals) → ℕ → Loop → Loop
unfolding poll_body
poll_for_events process_events status s =
    poll_body process_events status (record s { requested = 0 })

-- The state after `initialize`: the worker is started, with the globals' first values.
unfoldable pub initialize : Signals → Loop
initialize signals = record {
  requested = 0;
  flush_enabled = true;
  worker = sleeping;
  queued = 0;
  messages = 0;
  signals = signals;
}

pub data Step (process_events : Signals → Signals) : Loop → Loop → Type 0 where
  -- the worker wakes up and finds no request out
  wake :
      (s : Loop)
      → s.worker ≡ sleeping
      → s.requested ≡ 0
      → Step process_events s (record s { worker = tested })
  -- the worker sets the flag
  raise :
      (s : Loop)
      → s.worker ≡ tested
      → Step process_events s (record s { worker = raised; requested = 1 })
  -- Py_AddPendingCall finds room
  schedule :
      (s : Loop)
      → s.worker ≡ raised
      → Step process_events s (record s { worker = sleeping; queued = s.queued + 1 })
  -- Py_AddPendingCall finds none, and its result is not looked at
  drop : (s : Loop) → s.worker ≡ raised → Step process_events s (record s { worker = sleeping })
  -- the interpreter takes a poll from its queue and runs it
  poll :
      (s : Loop) (q status : ℕ)
      → s.queued ≡ suc q
      → Step process_events s (poll_for_events process_events status (record s { queued = q }))

pub data Reach (process_events : Signals → Signals) (s : Loop) : Loop → Type 0 where
  here : Reach process_events s s
  next :
      {t u : Loop} → Reach process_events s t → Step process_events t u → Reach process_events s u
