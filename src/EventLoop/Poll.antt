-- ===== src/EventLoop/Poll.antt =====
-- One call of `pollForEvents` (event_loop.cpp).
use pyreticulate.Base.{ℕ, ◌+◌, ◌≡◌, ◌||◌, ◌&&◌, ◌==◌, not, if◌then◌else◌, arith}
use pyreticulate.Signals.{Signals, get_interrupts_pending, get_interrupts_suspended, enter_scope}
use pyreticulate.EventLoop.{Loop, poll_for_events}

-- One poll clears the request flag and leaves the queue and the worker alone; it turns the flushing
-- of the buffers off exactly when it was on and the flush failed, and prints its message then and
-- only then; it leaves the suspension of interrupts as it was, and an interrupt is pending after it
-- exactly when one was before or R's event processing left one.
pub poll_for_events_lem :
    (process_events : Signals → Signals) (status : ℕ) (s : Loop)
    → let t = poll_for_events process_events status s in
      (t.requested ≡ 0)
      × (t.queued ≡ s.queued)
      × (t.worker ≡ s.worker)
      × (t.flush_enabled ≡ (s.flush_enabled && status == 0))
      × (t.messages ≡ (if s.flush_enabled && not (status == 0) then s.messages + 1 else s.messages))
      × (get_interrupts_suspended t.signals ≡ get_interrupts_suspended s.signals)
      × (get_interrupts_pending t.signals ≡ (
          get_interrupts_pending s.signals
          || get_interrupts_pending (process_events (enter_scope s.signals).1)))
unfolding poll_for_events
poll_for_events_lem process_events status s = (
  ground arith,
  ground arith,
  ground arith,
  ground arith,
  ground arith,
  ground arith,
  ground arith,
)
