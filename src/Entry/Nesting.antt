-- ===== src/Entry/Nesting.antt =====
-- Entry points that call one another, through R code and Python code, keep the lock of CPython
-- balanced, but where R jumps past them (reticulate_types.h).
use pyreticulate.Base.{ℕ, ◌+◌, ◌≡◌, refl, true, Option, arith, flag, ◌↔◌}
use pyreticulate.Entry.{
  Gil, enter, Outcome, returns, throws, jumps, interrupted_exception, value, on_interrupt,
  entry_point, python_object_finalize,
}

-- What an exported function may do: nothing to the lock, start Python, run a finalizer, do two things
-- after one another, or call another exported function, which ends in some way.
pub data Program : Type 0 where
  nothing : Program
  start : Program
  finalizer : Option ℕ → Program
  after : Program → Program → Program
  call : Program → Outcome → Program

unfoldable pub run : Program → Gil → Gil
unfolding entry_point python_object_finalize
run nothing s = s
run start s = record s { initialized = true }
run (finalizer address) s = python_object_finalize address s
run (after p q) s = run q (run p s)
run (call p o) s = (entry_point (λ s1. (o, run p s1)) s).1

-- The functions that R jumps past, and that have taken the lock.
unfoldable pub left_locked : Program → Gil → ℕ
left_locked nothing s = 0
left_locked start s = 0
left_locked (finalizer address) s = 0
left_locked (after p q) s = left_locked p s + left_locked q (run p s)
left_locked (call p jumps) s = left_locked p (enter s).1 + flag s.initialized
left_locked (call p (returns v)) s = left_locked p (enter s).1
left_locked (call p (throws e)) s = left_locked p (enter s).1

-- However exported functions, finalizers and starts of Python are nested, the lock is at the end as deep
-- as before, if each function returns or ends by an exception: no release is missing or one too many.
-- Each function that a long jump of R leaves adds one to the depth if it had taken the lock.
pub run-depth :
    (p : Program) (s : Gil)
    → ((run p s).depth ≡ s.depth + left_locked p s) × ((run p s).fatal ≡ s.fatal)
unfolding run left_locked
run-depth nothing s = (omega arith, refl)
run-depth start s = (omega arith, refl)
run-depth (finalizer address) s = ground arith
run-depth (after p q) s = ground (arith, run-depth p s, run-depth q (run p s))
run-depth (call p (returns v)) s = ground (arith, run-depth p (enter s).1)
run-depth (call p (throws e)) s = ground (arith, run-depth p (enter s).1)
run-depth (call p jumps) s = ground (arith, run-depth p (enter s).1)

-- An exported function gives R a value exactly if its body returns it, and ends in R's interrupt
-- exactly if an interrupt left the body; its body runs with the lock held once more than before,
-- exactly if Python was initialised then.
pub entry_point_lem :
    (body : Gil → Outcome × Gil) (s : Gil) (v : ℕ)
    → let inside = (enter s).1 in
      (((entry_point body s).0 ≡ value v) ↔ ((body inside).0 ≡ returns v))
      × (((entry_point body s).0 ≡ on_interrupt) ↔ ((body inside).0 ≡ throws interrupted_exception))
      × (inside.depth ≡ s.depth + flag s.initialized)
unfolding entry_point
entry_point_lem body s v =
    ((λ h. ground arith, λ h. ground arith), (λ h. ground arith, λ h. ground arith), ground arith)
