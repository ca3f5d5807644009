-- ===== src/Lib.antt =====
-- The C++ core of reticulate (src/), R's interface to Python: it loads libpython at run time, starts
-- an interpreter in R's process, converts objects in both directions, and lets R process events and
-- interrupts while Python code runs.
--
-- Parts and files. Names are the source's in snake case.
-- - Base, Bytes, Result: Boolean tests, lists and integers over the native numbers, byte strings,
--   and results of code that throws (Rcpp::stop and PythonException).
-- - Signals (src/signals.cpp, src/signals.h): the interrupt flags, interruptHandler,
--   py_interrupts_pending and InterruptsSuspendedScope. Signals/Machine: the steps of a session on
--   them, with nested scopes, signals that arrive inside a scope's ends, registerInterruptHandlerUnix
--   and R's own check.
-- - EventLoop (src/event_loop.cpp): eventPollingWorker and pollForEvents as the steps of two
--   threads on shared state; pollForEvents uses the scope of Signals. EventLoop/Guarded: a poll as steps
--   of Signals/Machine.
-- - Library, Library/Symbols (src/libpython.cpp): loadLibrary, loadSymbol, closeLibrary,
--   SharedLibrary and LibPython::loadSymbols with its table of symbols.
-- - Interp, Interp/Buffers, Interp/NumpyApi (src/libpython.cpp): flush_std_buffers and
--   import_numpy_api on the error indicator and the counts of references. Interp/Pointer
--   (src/python.cpp): PyPtr.
-- - Session (src/python.cpp): py_initialize and py_activate_virtualenv, over Library, Interp and Wide.
--   Session/Objects (src/libpython.cpp, src/libpython.h): initialize_type_objects.
-- - Wide (src/python.cpp): to_wstring and to_string.
-- - TypeNum, PyObject (src/libpython.h, src/python.cpp): numpy's type numbers and their narrowing,
--   Python objects, and the tests that the code makes on them.
-- - Sexp (src/python.cpp, src/reticulate_types.h): R objects and PyObjectRef.
-- - ClassNames (src/python.cpp): as_r_class, py_class_names and py_ref.
-- - ToR and ToPy (src/python.cpp): py_to_r, and r_to_py, r_to_py_cpp and r_to_py_numpy;
--   ToR/Ledger: the references of py_to_r, and ToR/References those of two loops of it by themselves;
--   ToPy/References: those of r_to_py_cpp and r_to_py_numpy.
-- - Formals (src/python.cpp): NewList, GrowList and py_get_formals, its loop as a function to lists;
--   Formals/Build: the same loop on the heap of cells; Formals/Statics: its static variables.
-- - Attributes (src/python.cpp): py_get_attr_types_impl and py_compare_impl.
-- - Access (src/python.cpp): py_get_attr_impl, py_get_item_impl, py_set_attr_impl, py_del_attr_impl,
--   py_set_item_impl, py_dict_set_item, py_iterate and, in Access/Call, py_call_impl, on the error
--   indicator and the counts of Interp. On the same state: Access/Run (py_run_string_impl,
--   py_run_file_impl, py_eval_impl), Access/Dict (dictionaries, tuples, py_iter_next), Access/Query
--   (lengths, texts, attributes, slices), Access/Modules (imports and submodules), Access/Dates
--   (r_convert_date), Access/Statics (STATIC_MODULE, get_np_nditer) and Access/Equal (py_get_attr,
--   py_equal and is_pandas_na). Access/Ledger has the accounting of references that these share.
-- - Fetch (src/python.cpp): py_fetch_error, over Signals and Interp. `throw_error` of Access is what the
--   other functions see of it, on the state of Interp: Fetch/Thrown compares the two. Fetch/Calls: current_env,
--   get_current_call and get_r_trace on R's protection stack. Fetch/Interrupts: py_fetch_error as a
--   step of Signals/Machine.
-- - Capsules (src/python.cpp): py_capsule_new, py_capsule_read, r_extptr_capsule, the destructors and
--   free_sexp as steps on R's precious list, over the finalizer of Pending. Capsules/Bag is the
--   abstract view, in which the list is a bag.
-- - Callback (src/python.cpp): call_r_function, over ToR and ToPy; Callback/References: its references.
-- - Entry, Reference (src/reticulate_types.h): GILScope, BEGIN_RCPP and END_RCPP, and in
--   Entry/Exported a function of Access inside of them; PyObjectRef. A long jump of R past the guard is
--   one of the ways in which a function ends.
-- - Process (src/python.cpp): main_process_python_info_unix, over Library and Wide. Process/Trace:
--   trace_print and trace_thread_main.
-- - Readline (src/readline.cpp): readline.
-- - Message (src/python.cpp): conditionMessage_from_py_exception.
-- - Pending (src/python.cpp): Rcpp_precious_remove_main_thread and
--   call_python_function_on_main_thread.
-- - Pandas (src/python.cpp): the conversions of pandas columns and R data frames.
-- - Examples: concrete inputs.
--
-- How the code is read. A Python object is the tree of what CPython and numpy answer about it, an R
-- object a tree of typed vectors. A double is its bit pattern; an R integer is an integer that is cut
-- to 32 bits where the code assigns a C long to an int. A function that throws returns a result.
-- CPython, numpy, pandas, Rcpp, the dynamic linker and the R functions that the code calls are
-- records or arguments; IsPython in ToPy/Roundtrip states what CPython documents about its
-- constructors. A reference that is counted is a pair of numbers, taken and given back.
--
-- Fuel. The loop of the finalizer is given 1202 rounds: it gives up in round 1201 at the latest, when
-- more than two minutes have passed in steps of 100 ms. The loop that schedules a call has no bound
-- in the source, and its fuel is an argument.
--
-- A long jump of R skips handlers and destructors. It is modelled where R code is evaluated without
-- protection (Callback) and in the guard (Entry); elsewhere R's functions return or throw. R has the
-- memory that it is asked for. A conversion of an argument is taken to leave the error indicator alone;
-- what PyInt_AsLong leaves behind is modelled in the iteration of Access.
--
-- Not modelled: functions that only pass a value on (py_id, py_print, py_is_function), and console
-- output. What R makes is a number: the content of a condition's call and trace, and R's objects on the
-- protection stack. TinyThread++ (src/tinythread.h) is a copy of another library, and
-- src/RcppExports.cpp is generated. The references that the tests on an object take are counted only
-- in Access/Equal, and what R's functions do with references is not counted. The builds for Windows and
-- for a debug version of Python are left out.
pub mod Base
pub mod Result
pub mod Bytes
pub mod Sexp
pub mod Signals
pub mod EventLoop
pub mod Library
pub mod Interp
pub mod Session
pub mod TypeNum
pub mod PyObject
pub mod ClassNames
pub mod ToR
pub mod ToPy
pub mod Formals
pub mod Attributes
pub mod Access
pub mod Message
pub mod Pending
pub mod Pandas
pub mod Fetch
pub mod Entry
pub mod Capsules
pub mod Callback
pub mod Readline
pub mod Wide
pub mod Process
pub mod Reference
mod Examples
