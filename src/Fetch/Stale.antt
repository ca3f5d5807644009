-- ===== src/Fetch/Stale.antt =====
-- What `py_fetch_error` (python.cpp) leaves of the interpreter, of the signals and of R's protection
-- stack.
use pyreticulate.Base.{
  ℕ, ◌+◌, ◌≡◌, refl, Bool, true, false, List, [], ◌∷◌, Option, none, some, if◌then◌else◌, arith,
}
use pyreticulate.Result.{Result, ok, err, interrupted}
use pyreticulate.Sexp.{PyRef}
use pyreticulate.PyObject.{Globals}
use pyreticulate.Signals.{get_python_interrupts_pending, get_interrupts_pending}
use pyreticulate.Interp.{Interp, Holds}
use pyreticulate.Interp.Buffers.{Stream}
use pyreticulate.Fetch.{attribute_error, Carried, Exception, Fetching, pull, py_fetch_error}

-- The references in a result.
abbrev pub held_condition : Result (PyRef × Carried) → ℕ
held_condition (ok r) = 1
held_condition (err e) = 0

-- An interrupt that Python has been told of goes to R: the result is R's interrupt, neither flag is
-- set any more, no exception is pending, and no reference is taken.
pub py_fetch_error-interrupted :
    (g : Globals) (r_trace r_call : ℕ) (sys_stdout sys_stderr : Stream) (x : Option Exception)
    (s : Fetching)
    → get_python_interrupts_pending s.signals ≡ true
    → let r = py_fetch_error g r_trace r_call sys_stdout sys_stderr x s in
      (r.0 ≡ err interrupted)
      × (get_python_interrupts_pending r.1.signals ≡ false)
      × (get_interrupts_pending r.1.signals ≡ false)
      × (r.1.interp.error ≡ none)
      × Holds 0 s.interp r.1.interp
unfolding py_fetch_error
py_fetch_error-interrupted g r_trace r_call sys_stdout sys_stderr none s p = ground arith
py_fetch_error-interrupted g r_trace r_call sys_stdout sys_stderr (some x) s p = ground arith

-- Whether the search passed a context, or an attribute, that was not there.
abbrev pub missed : List Carried → Bool
missed [] = true
missed ((some c, some t) ∷ contexts) = false
missed (carried ∷ contexts) = true

pull-error_kept :
    (contexts : List Carried) (x : Carried) (s : Interp)
    → s.error ≡ some attribute_error
    → (pull true contexts (x, s)).1.error ≡ some attribute_error
unfolding pull
pull-error_kept [] x s h = refl
pull-error_kept ((none, none) ∷ contexts) x s h =
    pull-error_kept contexts x
      (record s { error = some attribute_error; taken = s.taken + 1; released = s.released + 1 })
      refl
pull-error_kept ((some c, none) ∷ contexts) x s h = ground arith
pull-error_kept ((none, some t) ∷ contexts) x s h = ground arith
pull-error_kept ((some c, some t) ∷ contexts) x s h = ground arith

pub pull-error :
    (contexts : List Carried) (x : Carried) (s : Interp)
    → s.error ≡ none
    → (pull true contexts (x, s)).1.error ≡ (if missed contexts then some attribute_error else none)
unfolding pull
pull-error [] x s clean = refl
pull-error ((none, none) ∷ contexts) x s clean =
    pull-error_kept contexts x
      (record s { error = some attribute_error; taken = s.taken + 1; released = s.released + 1 })
      refl
pull-error ((some c, none) ∷ contexts) x s clean = refl
pull-error ((none, some t) ∷ contexts) x s clean = refl
pull-error ((some c, some t) ∷ contexts) x s clean = ground arith
