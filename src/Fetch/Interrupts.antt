-- ===== src/Fetch/Interrupts.antt =====
-- `py_fetch_error` (python.cpp) as a step of the flags of signals.cpp.
use pyreticulate.Base.{◌≡◌, arith, true, false, [], ◌∷◌, Option, none, some, ℕ}
use pyreticulate.Result.{err, interrupted}
use pyreticulate.PyObject.{Globals}
use pyreticulate.Signals.{get_interrupts_pending, get_interrupts_suspended, interrupt_handler}
use pyreticulate.Signals.Machine.{
  Machine, sigint, r_check, run, step, take_interrupt, deliver, check_user_interrupt,
}
use pyreticulate.Interp.Buffers.{Stream}
use pyreticulate.Fetch.{Exception, Fetching, py_fetch_error}

-- On every path, with an exception or without, the flags behind the fetching of an error are those of
-- the step of Signals/Machine.
pub py_fetch_error-take_interrupt :
    (g : Globals) (r_trace r_call : ℕ) (out_ err_ : Stream) (x : Option Exception) (s : Fetching)
    → (py_fetch_error g r_trace r_call out_ err_ x s).1.signals ≡ take_interrupt s.signals
unfolding py_fetch_error take_interrupt
py_fetch_error-take_interrupt g r_trace r_call out_ err_ none s = ground arith
py_fetch_error-take_interrupt g r_trace r_call out_ err_ (some x) s = ground arith

-- A SIGINT that the package's handler has seen, and that R has then taken by itself: no interrupt is
-- pending in R any more, and yet the next error of Python that is fetched, whatever it is, becomes an
-- interrupt.
pub py_fetch_error-again :
    (g : Globals) (r_trace r_call : ℕ) (out_ err_ : Stream) (x : Option Exception) (s : Fetching)
    (m : Machine)
    → m.installed ≡ true
    → get_interrupts_suspended m.signals ≡ false
    → s.signals ≡ (run (sigint ∷ r_check ∷ []) m).signals
    → (get_interrupts_pending s.signals ≡ false)
      × ((py_fetch_error g r_trace r_call out_ err_ x s).0 ≡ err interrupted)
unfolding run step deliver check_user_interrupt interrupt_handler py_fetch_error
py_fetch_error-again g r_trace r_call out_ err_ none s m installed free same =
    ground (arith, installed, free, same)
py_fetch_error-again g r_trace r_call out_ err_ (some x) s m installed free same =
    ground (arith, installed, free, same)
