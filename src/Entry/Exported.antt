-- ===== src/Entry/Exported.antt =====
-- An exported function as R calls it: the code of python.cpp inside the guard of reticulate_types.h.
use pyreticulate.Base.{ℕ, ◌≡◌, refl, ap, ◌∙◌, Bool, true, false, List, none, arith, flag, is_some}
use pyreticulate.Result.{
  Failure, stop, stop_num, stop_text, interrupted, python_exception, Result, ok, err,
}
use pyreticulate.Sexp.{Sexp, PyRef}
use pyreticulate.PyObject.{Head, PyObject, Globals}
use pyreticulate.ToPy.{Make}
use pyreticulate.ToPy.References.{Rpytools, with_rpytools}
use pyreticulate.Interp.{Interp, IsClean, Holds}
use pyreticulate.Access.{Answer}
use pyreticulate.Access.Call.{Keyword, held_ref, py_call_impl, py_call_impl-Holds}
use pyreticulate.Entry.{
  Gil, Thrown, Outcome, returns, throws, interrupted_exception, rcpp_exception, Exit, value,
  on_interrupt, stopped, own, from_rcpp, entry_point, enter, leave, finish, handle,
}

-- The C++ exception for a failure: the condition of a Python exception, and the texts of Rcpp::stop,
-- are numbers.
abbrev pub thrown : (Failure → ℕ) → Failure → Thrown
thrown number interrupted = interrupted_exception
thrown number python_exception = Thrown.python_exception (number python_exception)
thrown number e = rcpp_exception (number e)

abbrev pub outcome : (Failure → ℕ) → Result PyRef → Outcome
outcome number (ok r) = returns r.address
outcome number (err e) = throws (thrown number e)

unfoldable pub exported : (Failure → ℕ) → Result PyRef → Gil → Exit × Gil
unfolding entry_point
exported number r s = entry_point (λ s1. (outcome number r, s1)) s

-- How R sees a result.
abbrev pub exit_of : (Failure → ℕ) → Result PyRef → Exit
exit_of number (ok r) = value r.address
exit_of number (err interrupted) = on_interrupt
exit_of number (err python_exception) = stopped (own (number python_exception))
exit_of number (err e) = stopped (from_rcpp (number e))

enter-leave :
    (s : Gil) → let t = leave (enter s).0 (enter s).1 in (t.depth ≡ s.depth) × (t.fatal ≡ s.fatal)
unfolding enter leave
enter-leave s = ground arith

finish-handle :
    (number : Failure → ℕ) (e : Failure)
    → finish (handle (thrown number e)) ≡ exit_of number (err e)
unfolding finish handle
finish-handle number (stop text) = refl
finish-handle number (stop_num text n) = refl
finish-handle number (stop_text text more) = refl
finish-handle number interrupted = refl
finish-handle number python_exception = refl

exported_lem :
    (number : Failure → ℕ) (r : Result PyRef) (s : Gil)
    → let t = exported number r s in
      (t.0 ≡ exit_of number r) × (t.1.depth ≡ s.depth) × (t.1.fatal ≡ s.fatal)
unfolding exported
exported_lem number (ok r) s = (refl, (enter-leave s).0, (enter-leave s).1)
exported_lem number (err e) s = (finish-handle number e, (enter-leave s).0, (enter-leave s).1)

abbrev pub is_value : Exit → Bool
is_value (value v) = true
is_value _ = false

exit_of-is_value :
    (number : Failure → ℕ) (r : Result PyRef) → flag (is_value (exit_of number r)) ≡ held_ref r
exit_of-is_value number (ok r) = refl
exit_of-is_value number (err e) = ground arith

-- The call of a Python object from R, with no exception pending, where every array can
-- be given its base object, no R long jump leaves the code, and the fetching of an exception leaves none
-- pending: R gets the reference to the result, the
-- condition of the Python exception, an error with the text of the failure, or the interrupt,
-- according to how `py_call_impl` ends. In each case the lock is held as often as before, no Python
-- exception is pending, and every reference is given back but that of a value.
pub exported-py_call_impl :
    (g : Globals) (m : Make) (p : Rpytools) (args : List Sexp) (keywords : List Keyword)
    (answer : Answer Head) (convert : Bool) (number : Failure → ℕ) (gil : Gil) (s : Interp)
    → ((a b : PyObject) → is_some (m.set_base_object a b) ≡ true)
    → IsClean s
    → let r = py_call_impl g (with_rpytools p m) p args keywords answer convert s in
      let t = exported number r.0 gil in
      (t.0 ≡ exit_of number r.0)
      × (t.1.depth ≡ gil.depth)
      × (t.1.fatal ≡ gil.fatal)
      × (r.1.error ≡ none)
      × Holds (flag (is_value t.0)) s r.1
exported-py_call_impl g m p args keywords answer convert number gil s sets clean =
    let r = (py_call_impl g (with_rpytools p m) p args keywords answer convert s).0 in
    let (exit, depth, fatal) = exported_lem number r gil in
    let (kept, clean1) = py_call_impl-Holds g m p args keywords answer convert s sets clean in
    let given = ap (λ x. flag (is_value x)) exit ∙ exit_of-is_value number r in
    (exit, depth, fatal, clean1.0, omega (arith, kept, given))
