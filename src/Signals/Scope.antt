-- ===== src/Signals/Scope.antt =====
-- What the suspending scope of signals.h keeps, and what the handler and the query do inside it.
use pyreticulate.Base.{not, ◌≡◌, refl, Bool, true, false, ◌||◌, ◌+◌, arith}
use pyreticulate.Signals.{
  Signals, get_interrupts_pending, get_interrupts_suspended, get_python_interrupts_pending,
  interrupt_handler, py_interrupts_pending, enter_scope, in_scope,
}

-- Whatever the guarded code does to the flags, after the scope an interrupt is pending exactly when
-- one was pending before it or the guarded code left one pending; the suspension is what it was
-- before; and the flags that the scope does not manage are as the guarded code left them. The
-- guarded code starts with no interrupt pending and with interrupts suspended.
pub in_scope-pending :
    (body : Signals → Signals) (s : Signals)
    → let inner = (enter_scope s).1 in
      (get_interrupts_pending (in_scope body s)
        ≡ (get_interrupts_pending s || get_interrupts_pending (body inner)))
      × (get_interrupts_suspended (in_scope body s) ≡ get_interrupts_suspended s)
      × (get_interrupts_pending inner ≡ false)
      × (get_interrupts_suspended inner ≡ true)
      × ((in_scope body s).py_pending ≡ (body inner).py_pending)
      × ((in_scope body s).set_interrupt_calls ≡ (body inner).set_interrupt_calls)
unfolding in_scope
in_scope-pending body s =
    (ground arith, ground arith, ground arith, ground arith, ground arith, ground arith)

-- A SIGINT that arrives while the scope guards code is not lost: after the scope R has an interrupt
-- pending and Python's own flag is set, and CPython was told once; and the query reports it exactly
-- if interrupts were not suspended before.
pub interrupt_handler-in_scope :
    (s : Signals)
    → let t = in_scope interrupt_handler s in
      (get_interrupts_pending t ≡ true)
      × (get_python_interrupts_pending t ≡ true)
      × (t.set_interrupt_calls ≡ s.set_interrupt_calls + 1)
      × ((py_interrupts_pending false t).0 ≡ not (get_interrupts_suspended s))
unfolding in_scope interrupt_handler py_interrupts_pending
interrupt_handler-in_scope s = (ground arith, ground arith, refl, ground arith)

-- While interrupts are suspended, as they are for the code that a scope guards, the query answers
-- no and changes no flag, also when it is asked to reset.
pub py_interrupts_pending-enter_scope :
    (s : Signals) (reset : Bool)
    → py_interrupts_pending reset (enter_scope s).1 ≡ (false, (enter_scope s).1)
unfolding py_interrupts_pending enter_scope
py_interrupts_pending-enter_scope s reset = ground arith
