-- ===== src/Pending.antt =====
-- Scheduling on the main thread with Py_AddPendingCall (python.cpp): the finalizer of an R object,
-- `Rcpp_precious_remove_main_thread`, and `call_python_function_on_main_thread` with the call object
-- `PythonCall` and its callback `call_python_function`. Whether CPython accepts the call at an
-- attempt is a function of the attempt's number, from 0. A loop is given fuel.
pub mod Finalizer
pub mod Calls
use pyreticulate.Base.{
  ℕ, zero, suc, ◌+◌, ◌*◌, ◌%◌, ◌==◌, not, Bool, true, false, Option, none, some, ltb, if◌then◌else◌,
}
use pyreticulate.Base.Int.{ℤ, pos, negsuc}

abbrev pub wait_ms : ℕ
wait_ms = 100

-- How a loop ends: with the attempt that CPython accepted, or giving up, or out of fuel. With it go
-- the warnings and the errors that were printed.
pub data Ending : Type 0 where
  scheduled : ℕ → Ending
  gave_up : Ending
  out_of_fuel : Ending

pub record Scheduling : Type 0 where
  pub ending : Ending
  pub warnings : ℕ
  pub errors : ℕ

abbrev pub ended : Ending → ℕ → ℕ → Scheduling
ended e warnings errors = record { ending = e; warnings = warnings; errors = errors }

-- The loop of the finalizer.
unfoldable pub remove_loop : (ℕ → Bool) → ℕ → ℕ → ℕ → ℕ → Scheduling
remove_loop accepts zero attempt waited_ms warnings = ended out_of_fuel warnings 0
remove_loop accepts (suc fuel) attempt waited_ms warnings =
    let waited = waited_ms + wait_ms in
    let warned = remove_loop accepts fuel (suc attempt) waited (suc warnings) in
    let again = remove_loop accepts fuel (suc attempt) waited warnings in
    if accepts attempt
    then ended (scheduled attempt) warnings 0
    else if waited % 60000 == 0
    then warned
    else if ltb (60000 * 2) waited
    then ended gave_up warnings 1
    else again

-- What becomes of the R object.
pub data Removal : Type 0 where
  removed_now : Removal
  later : Scheduling → Removal

unfoldable pub remove_main_thread : (ℕ → Bool) → Bool → Removal
unfolding remove_loop
remove_main_thread accepts is_main_thread =
    let loop = later (remove_loop accepts 1202 0 0 0) in
    if is_main_thread then removed_now else loop

-- The loop of `call_python_function_on_main_thread`, which does not give up.
unfoldable pub schedule_loop : (ℕ → Bool) → ℕ → ℕ → ℕ → ℕ → Scheduling
schedule_loop accepts zero attempt waited_ms warnings = ended out_of_fuel warnings 0
schedule_loop accepts (suc fuel) attempt waited_ms warnings =
    let waited = waited_ms + wait_ms in
    let warned = schedule_loop accepts fuel (suc attempt) waited (suc warnings) in
    let again = schedule_loop accepts fuel (suc attempt) waited warnings in
    if accepts attempt
    then ended (scheduled attempt) warnings 0
    else if waited % 60000 == 0
    then warned
    else again

-- The references that the code holds to the function, its data and the result, and those that it
-- has given back.
pub record Refs : Type 0 where
  pub func : ℕ
  pub data_ref : ℕ
  pub result : ℕ
  pub func_released : ℕ
  pub data_released : ℕ
  pub result_released : ℕ

-- PythonCall's constructor and destructor.
unfoldable pub new_call : Refs → Refs
new_call r = record r { func = r.func + 1; data_ref = r.data_ref + 1 }

unfoldable pub delete_call : Refs → Refs
delete_call r = record r {
  func_released = r.func_released + 1;
  data_released = r.data_released + 1;
}

-- The argument of the call: none if the data is None.
abbrev pub call_argument : ℕ → ℕ → Option ℕ
call_argument py_none datum = if datum == py_none then none else some datum

-- `call_python_function`: the argument passed, the status, and the references; `call` is what
-- PyObject_CallFunctionObjArgs makes of the argument, `false` for an exception.
unfoldable pub call_python_function : (Option ℕ → Bool) → ℕ → ℕ → Refs → ℤ × Refs
unfolding delete_call
call_python_function call py_none datum r =
    if call (call_argument py_none datum)
    then (
      pos 0,
      (let r' = delete_call (record r { result = r.result + 1 }) in
          record r' { result_released = r'.result_released + 1 }),
    )
    else (negsuc 0, delete_call r)

-- `call_python_function_on_main_thread`: the references and the scheduling.
unfoldable pub call_on_main_thread : (ℕ → Bool) → ℕ → Refs → Scheduling × Refs
unfolding schedule_loop new_call
call_on_main_thread accepts fuel r = (schedule_loop accepts fuel 0 0 0, new_call r)
