-- ===== src/Access/Run/Kept.antt =====
-- What the running of Python code (python.cpp) keeps: references, open files, and exceptions that stay
-- pending.
use pyreticulate.Base.{◌+◌, ◌≡◌, arith, Bool, true, false, if◌then◌else◌, not, ◌&&◌, flag}
use pyreticulate.Result.{Result}
use pyreticulate.Sexp.{PyRef}
use pyreticulate.PyObject.{Head, PyObject, Globals}
use pyreticulate.Interp.{IsClean, Interp, take_ref, dec_ref, Holds}
use pyreticulate.Interp.Laws.{flush_std_buffers_lem, flush_std_buffers-left_by}
use pyreticulate.Access.{Answer, returned, raised}
use pyreticulate.Access.Ledger.{is_returned}
use pyreticulate.Access.Run.{
  held_by, py_run_string_impl, py_eval_impl, Running, Script, deleted, run_file, py_run_file_impl,
}

-- The running of a string gives back every reference but the one to the dictionary that it returns,
-- and leaves a clean state if it starts in one, whether the code raises or not.
pub py_run_string_impl-Holds :
    (g : Globals) (dictionary : Head) (run : Answer (Unit {0})) (local convert : Bool) (s : Interp)
    → IsClean s
    → let r = py_run_string_impl g dictionary run local convert s in
      Holds (held_by r.0) s r.1 × IsClean r.1
unfolding py_run_string_impl
py_run_string_impl-Holds g dictionary run true convert s clean = ground arith
py_run_string_impl-Holds g dictionary run false convert s clean = ground arith

-- The evaluation of an expression gives back every reference but one that it returns, and leaves no
-- exception pending, from a clean state, whether the code compiles, raises, or gives a value that can be converted or not.
pub py_eval_impl-Holds :
    (g : Globals) (compile : Answer (Unit {0})) (eval : Answer PyObject) (convert : Bool)
    (s : Interp)
    → IsClean s
    → let r = py_eval_impl g compile eval convert s in
      Holds (if convert then 0 else held_by r.0) s r.1 × IsClean r.1
unfolding py_eval_impl
py_eval_impl-Holds g (raised e) eval convert s clean = ground arith
py_eval_impl-Holds g (returned u) (raised e) convert s clean = ground arith
py_eval_impl-Holds g (returned u) (returned x) true s clean = ground arith
py_eval_impl-Holds g (returned u) (returned x) false s clean = ground arith

deleted_lem :
    (a : Answer (Unit {0})) (s : Interp)
    → IsClean s
    → Holds 0 s (deleted a s) × IsClean (deleted a s)
deleted_lem (returned u) s clean = (omega arith, clean)
deleted_lem (raised e) s clean = ground (arith, clean)

-- What `run_file` leaves: it gives back the reference to the locals unless it returns it.
abbrev pub IsSettled : Running → Result PyRef × Running → Type 0
IsSettled r t =
    (t.1.interp.taken + r.interp.released + 1 ≡ t.1.interp.released + r.interp.taken + held_by t.0)
    × IsClean t.1.interp
    × (t.1.closed ≡ r.closed + 1)
    × (t.1.opened ≡ r.opened)

run_file-IsSettled :
    (g : Globals) (locals : Head) (script : Script) (convert : Bool) (r : Running)
    → IsClean r.interp
    → IsSettled r (run_file g locals script convert r)
unfolding run_file
run_file-IsSettled g locals script convert r clean =
    elim script.run
      as (λ a. IsSettled r (run_file g locals (record script { run = a }) convert r)) [
        | raised e ↦ ground arith
        | returned u ↦
            let s2 : Interp = dec_ref (take_ref r.interp) in
            let (kept_file, clean_file) = deleted_lem script.delete_file s2 clean in
            let s3 = deleted script.delete_file s2 in
            let (kept_cached, clean_cached) = deleted_lem script.delete_cached s3 clean_file in
            let s4 = deleted script.delete_cached s3 in
            let flushed = flush_std_buffers_lem script.sys_stdout script.sys_stderr s4 in
            let left = flush_std_buffers-left_by script.sys_stdout script.sys_stderr s4 in
            ground (arith, kept_file, kept_cached, clean_cached, flushed.1, flushed.2, left)
      ]

-- What `py_run_file_impl` keeps of a file that can be opened.
abbrev pub IsKept : Script → Running → Result PyRef × Running → Type 0
IsKept script r t =
    Holds (held_by t.0 + 1) r.interp t.1.interp
    × IsClean t.1.interp
    × (t.1.opened + r.closed
        ≡ t.1.closed
          + r.opened
          + flag (not (is_returned script.set_file && is_returned script.set_cached)))

-- The running of a file that can be opened, from a state in which no exception is pending and the fetching
-- of one leaves none pending: besides the dictionary that it returns it keeps one reference, on every
-- path, that to the text of the file's name; it closes the file, unless one of the two names cannot be
-- set in the dictionary; and no exception stays pending.
pub py_run_file_impl-IsKept :
    (g : Globals) (locals : Head) (script : Script) (convert : Bool) (r : Running)
    → script.opens ≡ true
    → IsClean r.interp
    → IsKept script r (py_run_file_impl g locals script convert r)
unfolding py_run_file_impl
py_run_file_impl-IsKept g locals script convert r opens clean =
    let settled =
      run_file-IsSettled g locals script convert
        (record r { interp = take_ref (take_ref r.interp); opened = r.opened + 1 }) clean in
    elim script.set_file
      as (λ a.
        IsKept (record script { set_file = a }) r
          (py_run_file_impl g locals (record script { set_file = a }) convert r)) [
            | raised e ↦ ground (arith, opens, clean)
            | returned u ↦
                elim script.set_cached
                  as (λ a.
                    IsKept (record script { set_file = returned u; set_cached = a }) r
                      (py_run_file_impl g locals
                        (record script { set_file = returned u; set_cached = a }) convert r)) [
                          | raised e ↦ ground (arith, opens, clean)
                          | returned u' ↦ ground (arith, opens, settled)
                        ]
          ]
