-- ===== src/Fetch.antt =====
-- `py_fetch_error` of python.cpp: the pending Python exception as an R condition, which carries the R
-- call and the R trace of the place where it arose. The objects behind `__context__` are a list, to
-- the first that has no such attribute (None is the last of them); each shows the call and the trace
-- that it carries. R's calls (the trace, the current call) are arguments.
pub mod Attached
pub mod Stale
pub mod Thrown
pub mod Calls
pub mod Interrupts
use pyreticulate.Base.{
  ℕ, ◌+◌, not, ◌&&◌, ◌||◌, Bool, true, false, List, [], ◌∷◌, Option, none, some, is_some, flag,
  if◌then◌else◌,
}
use pyreticulate.Base.Int.{int_eq, negsuc}
use pyreticulate.Result.{Result, ok, err, interrupted, stop}
use pyreticulate.Sexp.{PyRef}
use pyreticulate.PyObject.{Head, Globals}
use pyreticulate.Signals.{
  Signals, get_python_interrupts_pending, set_interrupts_pending, set_python_interrupts_pending,
}
use pyreticulate.Interp.{Interp, clear, raise, take_ref, dec_ref}
use pyreticulate.Interp.Buffers.{Stream, flush_std_buffers}
use pyreticulate.Access.{own_ref}

-- The attributes "call" and "trace".
abbrev pub Carried : Type 0
Carried = Option ℕ × Option ℕ

pub record Exception : Type 0 where
  pub head : Head
  pub call : Option ℕ
  pub trace : Option ℕ
  pub contexts : List Carried
  pub writable : Bool  -- PyObject_SetAttrString succeeds
  pub traceback : Bool  -- PyErr_Fetch gives a traceback

pub record Fetching : Type 0 where
  pub interp : Interp
  pub signals : Signals
  pub excess : ℕ  -- of UNPROTECT over PROTECT
  pub warnings : ℕ

abbrev pub attribute_error : ℕ
attribute_error = 1

-- PyObject_HasAttrString clears the indicator when the attribute is missing.
abbrev pub probe : Option ℕ → Interp → Interp
probe none s = clear s
probe (some v) s = s

-- PyObject_SetAttrString, whose status is not looked at.
abbrev pub assigned : Bool → Option ℕ → ℕ → Option ℕ
assigned writable old v = if writable then some v else old

abbrev pub after_assign : Bool → Interp → Interp
after_assign writable s = if writable then s else raise attribute_error s

-- An attribute of a context that is copied, if it is there, and the reference to it.
abbrev pub copied : Bool → Option ℕ → Option ℕ → Option ℕ
copied writable none old = old
copied writable (some v) old = assigned writable old v

abbrev pub after_copy : Bool → Option ℕ → Interp → Interp
after_copy writable none s = raise attribute_error s
after_copy writable (some v) s = dec_ref (after_assign writable (take_ref s))

-- The loop over the contexts.
unfoldable pub pull : Bool → List Carried → Carried × Interp → Carried × Interp
pull writable [] (x, s) = (x, raise attribute_error s)
pull writable ((c, t) ∷ contexts) (x, s) =
    let s1 = after_copy writable t (after_copy writable c (take_ref s)) in
    let x1 : Carried = (copied writable c x.0, copied writable t x.1) in
    let rest = pull writable contexts (x1, dec_ref s1) in
    if is_some c || is_some t then (x1, dec_ref s1) else rest

-- An attribute that is made from an R object if it is missing.
abbrev pub filled : Bool → Option ℕ → ℕ → Option ℕ
filled writable none v = assigned writable none v
filled writable (some w) v = some w

abbrev pub after_fill : Bool → Option ℕ → Interp → Interp
after_fill writable none s = dec_ref (after_assign writable (take_ref (clear s)))
after_fill writable (some w) s = s

-- The part ahead of `py_ref`: the attributes of the exception, whether R's current call was taken
-- (its UNPROTECT(1) has no PROTECT), and the interpreter.
unfoldable pub attach : ℕ → ℕ → Exception → Interp → Carried × Bool × Interp
unfolding pull
attach r_trace r_call x s =
    let s1 = probe x.call s in
    let own : Carried = (x.call, x.trace) in
    let (y, s2) = if is_some x.call then (own, s1) else pull x.writable x.contexts (own, s1) in
    (
      (filled x.writable y.0 r_call, filled x.writable y.1 r_trace),
      not (is_some y.0),
      after_fill x.writable y.0 (after_fill x.writable y.1 s2),
    )

-- The references that PyErr_Fetch hands over, less those of the type and, where it is given back, of
-- the traceback: that of the value is left.
unfoldable pub take_over : Globals → Exception → Interp → Interp
take_over g x s =
    let given_back = x.traceback && g.python3 in
    record s {
      error = none;
      taken = s.taken + 2 + flag x.traceback;
      released = s.released + 1 + flag given_back;
    }

-- The condition, the attributes that the exception then has, and the state. Elsewhere PROTECT and
-- UNPROTECT balance.
unfoldable pub py_fetch_error :
    Globals
    → ℕ
    → ℕ
    → Stream
    → Stream
    → Option Exception
    → Fetching
    → Result (PyRef × Carried) × Fetching
unfolding take_over attach
py_fetch_error g r_trace r_call sys_stdout sys_stderr none s =
    if get_python_interrupts_pending s.signals
    then (
      err interrupted,
      record s {
        interp = clear s.interp;
        signals = set_python_interrupts_pending false (set_interrupts_pending false s.signals);
      },
    )
    else (err (stop "Unknown Python error."), s)
py_fetch_error g r_trace r_call sys_stdout sys_stderr (some x) s =
    let (carried, current, s1) = attach r_trace r_call x (take_over g x s.interp) in
    let (cond, s2) = own_ref g x.head true s1 in
    let (status, s3) = flush_std_buffers sys_stdout sys_stderr s2 in
    let done = record s { interp = s2; excess = s.excess + flag current } in
    if get_python_interrupts_pending s.signals
    then (
      err interrupted,
      record s {
        interp = clear s.interp;
        signals = set_python_interrupts_pending false (set_interrupts_pending false s.signals);
      },
    )
    else elim cond [
      | err e ↦ (err e, done)
      | ok r ↦ (
        ok (r, carried),
        record done { interp = s3; warnings = s.warnings + flag (int_eq status (negsuc 0)) },
      )
    ]
