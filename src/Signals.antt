-- ===== src/Signals.antt =====
-- The interrupt flags of signals.h and signals.cpp: `R_interrupts_pending` and
-- `R_interrupts_suspended` of R, `s_pyInterruptsPending` of the package, the handler of SIGINT, and
-- the scope that suspends R's interrupts. A flag is a C integer that is read by `!= 0`.
-- `PyErr_SetInterrupt` belongs to CPython: the model counts its calls.
pub mod Machine
pub mod Scope
use pyreticulate.Base.{ℕ, ◌+◌, Bool, true, false, ◌||◌, if◌then◌else◌, nonzero, flag}

pub record Signals : Type 0 where
  pub py_pending : ℕ
  pub r_pending : ℕ
  pub r_suspended : ℕ
  pub set_interrupt_calls : ℕ

abbrev pub get_python_interrupts_pending : Signals → Bool
get_python_interrupts_pending s = nonzero s.py_pending

abbrev pub set_python_interrupts_pending : Bool → Signals → Signals
set_python_interrupts_pending value s = record s { py_pending = flag value }

abbrev pub get_interrupts_pending : Signals → Bool
get_interrupts_pending s = nonzero s.r_pending

abbrev pub set_interrupts_pending : Bool → Signals → Signals
set_interrupts_pending value s = record s { r_pending = flag value }

abbrev pub get_interrupts_suspended : Signals → Bool
get_interrupts_suspended s = nonzero s.r_suspended

abbrev pub set_interrupts_suspended : Bool → Signals → Signals
set_interrupts_suspended value s = record s { r_suspended = flag value }

-- `PyErr_SetInterrupt()`
abbrev pub py_err_set_interrupt : Signals → Signals
py_err_set_interrupt s = record s { set_interrupt_calls = s.set_interrupt_calls + 1 }

unfoldable pub interrupt_handler : Signals → Signals
interrupt_handler s =
    py_err_set_interrupt (set_interrupts_pending true (set_python_interrupts_pending true s))

-- The answer, and the flags after the call.
unfoldable pub py_interrupts_pending : Bool → Signals → Bool × Signals
py_interrupts_pending reset s =
    if get_interrupts_suspended s
    then (false, s)
    else if reset
    then (false, set_interrupts_pending false s)
    else (get_interrupts_pending s, s)

-- The fields of `InterruptsSuspendedScope`.
pub record SuspendedScope : Type 0 where
  pub pending : ℕ
  pub suspended : ℕ

-- The constructor, with no signal between its statements (see Signals/Machine for one that arrives there).
unfoldable pub enter_scope : Signals → SuspendedScope × Signals
enter_scope s = (
  record {
    pending = flag (get_interrupts_pending s);
    suspended = flag (get_interrupts_suspended s);
  },
  set_interrupts_suspended true (set_interrupts_pending false s),
)

-- The destructor, likewise.
unfoldable pub leave_scope : SuspendedScope → Signals → Signals
leave_scope scope s =
    let s' = set_interrupts_pending (nonzero scope.pending || get_interrupts_pending s) s in
    set_interrupts_suspended (nonzero scope.suspended) s'

-- A block of code that a scope guards.
unfoldable pub in_scope : (Signals → Signals) → Signals → Signals
unfolding enter_scope leave_scope
in_scope body s = let (scope, s') = enter_scope s in leave_scope scope (body s')
