-- ===== src/Signals/Machine.antt =====
-- The flags of signals.cpp as the session runs: the handler of SIGINT is R's until
-- `registerInterruptHandlerUnix` installs the package's, scopes of signals.h nest, R and the package
-- ask for interrupts, and `py_fetch_error` (python.cpp) turns one into an error. What R does with
-- `R_interrupts_pending` by itself is a step too: its handler and its events set the flag, and its own
-- check takes an interrupt unless they are suspended. A signal may also arrive inside the scope's
-- constructor, when the flag has been read and is not yet reset, or inside its destructor, when the flag
-- has been read and is not yet written. `unanswered` is a variable of the history, not of the code: an
-- interrupt has come since the last one was taken, other than by a signal in one of those two places.
pub mod Kept
use pyreticulate.Base.{ℕ, ◌≡◌, ◌&&◌, Bool, true, false, not, List, [], ◌∷◌, if◌then◌else◌, nonzero}
use pyreticulate.Signals.{
  Signals, SuspendedScope, get_interrupts_pending, get_interrupts_suspended,
  get_python_interrupts_pending, set_interrupts_pending, set_python_interrupts_pending,
  interrupt_handler, py_interrupts_pending, enter_scope, leave_scope,
}

pub data Event : Type 0 where
  register : Event  -- py_register_interrupt_handler
  sigint : Event  -- the signal arrives
  r_notice : Event  -- R sets its flag itself, as while it processes events
  r_check : Event  -- R_CheckUserInterrupt
  enter leave : Event  -- the ends of an InterruptsSuspendedScope
  enter_hit leave_hit : Event  -- the same, and the signal arrives behind the reading of the flag
  ask : Bool → Event  -- py_interrupts_pending
  fetch : Event  -- py_fetch_error

pub record Machine : Type 0 where
  pub signals : Signals
  pub scopes : List SuspendedScope  -- the innermost first
  pub installed : Bool  -- the handler of SIGINT is interruptHandler
  pub unanswered : Bool

-- registerInterruptHandlerUnix: sigaction puts the handler in place, however often it is called.
unfoldable pub register_interrupt_handler : Machine → Machine
register_interrupt_handler m = record m { installed = true }

-- The handler that is in place when the signal arrives.
unfoldable pub deliver : Machine → Machine
unfolding interrupt_handler
deliver m = record m {
  signals =
      if m.installed then interrupt_handler m.signals else set_interrupts_pending true m.signals;
  unanswered = true;
}

-- How py_fetch_error starts.
unfoldable pub take_interrupt : Signals → Signals
take_interrupt s =
    if get_python_interrupts_pending s
    then set_python_interrupts_pending false (set_interrupts_pending false s)
    else s

unfoldable pub open_scope : Machine → Machine
unfolding enter_scope
open_scope m = record m {
  signals = (enter_scope m.signals).1;
  scopes = (enter_scope m.signals).0 ∷ m.scopes;
}

unfoldable pub close_scope : Machine → Machine
unfolding leave_scope
close_scope m = elim m.scopes [
  | [] ↦ m
  | scope ∷ outer ↦ record m { signals = leave_scope scope m.signals; scopes = outer }
]

-- The constructor keeps the flags from ahead of the signal, and resets them behind it.
unfoldable pub open_scope_hit : Machine → Machine
unfolding enter_scope deliver
open_scope_hit m = record m {
  signals = (enter_scope (deliver m).signals).1;
  scopes = (enter_scope m.signals).0 ∷ m.scopes;
}

-- The destructor writes what it has read ahead of the signal.
unfoldable pub close_scope_hit : Machine → Machine
unfolding leave_scope deliver
close_scope_hit m = elim m.scopes [
  | [] ↦ m
  | scope ∷ outer ↦
      let read = leave_scope scope m.signals in
      record m {
        signals = record (deliver m).signals {
          r_pending = read.r_pending;
          r_suspended = read.r_suspended;
        };
        scopes = outer;
      }
]

unfoldable pub ask_pending : Bool → Machine → Machine
unfolding py_interrupts_pending
ask_pending reset m = record m {
  signals = (py_interrupts_pending reset m.signals).1;
  unanswered = m.unanswered && not (reset && not (get_interrupts_suspended m.signals));
}

unfoldable pub check_user_interrupt : Machine → Machine
check_user_interrupt m =
    if get_interrupts_suspended m.signals
    then m
    else record m { signals = set_interrupts_pending false m.signals; unanswered = false }

unfoldable pub step : Event → Machine → Machine
unfolding register_interrupt_handler deliver open_scope close_scope ask_pending check_user_interrupt
    take_interrupt open_scope_hit close_scope_hit
step register m = register_interrupt_handler m
step sigint m = deliver m
step r_notice m = record m { signals = set_interrupts_pending true m.signals; unanswered = true }
step r_check m = check_user_interrupt m
step enter m = open_scope m
step leave m = close_scope m
step enter_hit m = open_scope_hit m
step leave_hit m = close_scope_hit m
step (ask reset) m = ask_pending reset m
step fetch m = record m {
  signals = take_interrupt m.signals;
  unanswered = m.unanswered && not (get_python_interrupts_pending m.signals);
}

unfoldable pub run : List Event → Machine → Machine
run [] m = m
run (e ∷ es) m = run es (step e m)

-- A session before the handler is registered, outside every scope.
unfoldable pub start : Signals → Machine
start s = record {
  signals = s;
  scopes = [];
  installed = false;
  unanswered = get_interrupts_pending s;
}
