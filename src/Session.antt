-- ===== src/Session.antt =====
-- The start of a Python session: `py_initialize` and `py_activate_virtualenv` of python.cpp, over
-- the loading of libpython and the import of numpy's API. What CPython, the file system and R's
-- environment answer is a record.
pub mod Start
pub mod Objects
use pyreticulate.Base.{
  ℕ, suc, ◌==◌, not, ◌||◌, ltb, Bool, true, false, List, [], ◌∷◌, Option, none, some, String,
  if◌then◌else◌, is_some,
}
use pyreticulate.Result.{Result, ok, err, python_exception, stop, stop_text, ◌>>=◌}
use pyreticulate.Library.{Linker, Loader, load}
use pyreticulate.Bytes.{Bytes}
use pyreticulate.Wide.{WideString, Locale, to_wstring}
use pyreticulate.Session.Objects.{Builders, TypeObjects, initialize_type_objects}
use pyreticulate.Interp.{Interp}
use pyreticulate.Interp.NumpyApi.{Numpy, NumpyError, Import, import_numpy_api}

-- s_numpy_load_error: what R found, or what the import found.
pub data NumpyProblem : Type 0 where
  given : String → NumpyProblem
  api : NumpyError → NumpyProblem

-- How the module rpycall is made known.
pub data Registration : Type 0 where
  module_dict inittab init_module4 : Registration

-- The texts that the code keeps for CPython: `s_python` and `s_pythonhome`, or their wide counterparts.
pub data Kept : Type 0 where
  narrow : Bytes → Kept
  wide : WideString → Kept

pub record Session : Type 0 where
  pub is_python3 : Bool
  pub is_interactive : Bool
  pub python2_warnings : ℕ
  pub loader : Loader
  pub program_name : Option Kept
  pub python_home : Option Kept
  pub argv : Option Kept
  pub rpycall : Option Registration
  pub py_initialized : Bool  -- Py_IsInitialized()
  pub by_reticulate : Bool  -- s_was_python_initialized_by_reticulate
  pub main_thread : ℕ
  pub initialized : Bool  -- s_is_python_initialized
  pub type_objects : Option TypeObjects
  pub numpy_error : Option NumpyProblem
  pub numpy_api : Bool  -- import_numpy_api returned true
  pub trace_ms : ℕ  -- 0 without a tracing thread
  pub polling : Bool  -- the thread of event_loop.cpp runs
  pub interp : Interp

pub record Arguments : Type 0 where
  pub python : Bytes
  pub libpython : String
  pub pythonhome : Bytes
  pub virtualenv_activate : Option String  -- none is the empty text
  pub python3 : Bool
  pub interactive : Bool
  pub numpy_load_error : Option String  -- none is the empty text

pub record Host : Type 0 where
  pub linker : Linker
  pub is64bit : Bool
  pub thread_id : ℕ
  pub set_file : String → Bool  -- __file__ is set
  pub read_file : String → Option String
  pub run_string : String → Bool  -- the code ran without an exception
  pub numpy : Numpy
  pub locale : Locale
  pub builders : Builders
  pub dump_stack_trace : ℕ  -- RETICULATE_DUMP_STACK_TRACE

-- haveNumPy
abbrev pub have_numpy : Session → Bool
have_numpy s = not (is_some s.numpy_error)

unfoldable pub py_activate_virtualenv : Host → String → Result (Unit {0})
py_activate_virtualenv h script =
    if not (h.set_file script) then err python_exception else elim (h.read_file script) [
      | none ↦ err (stop_text "Unable to open file '%s' (does it exist?)" script)
      | some code ↦ if h.run_string code then ok tt else err python_exception
    ]

-- Py_Initialize() and the flag that it was called here.
abbrev pub initialize_here : Session → Session
initialize_here s = record s { py_initialized = true; by_reticulate = true }

-- Python 3 that is not up yet. What has been kept stays when a conversion throws.
unfoldable pub start_python3 : Locale → Arguments → Session → Result (Unit {0}) × Session
start_python3 l a s = elim (to_wstring l a.python) [
  | err e ↦ (err e, s)
  | ok program ↦
      let named = record s { program_name = some (wide program) } in
      elim (to_wstring l a.pythonhome) [
        | err e ↦ (err e, named)
        | ok home ↦ (
          ok tt,
          initialize_here (record named {
            python_home = some (wide home);
            rpycall = some inittab;
            argv = some (wide program);
          }),
        )
      ]
]

unfoldable pub start_python2 : Arguments → Session → Session
start_python2 a s =
    let named = record s {
      program_name = some (narrow a.python);
      python_home = some (narrow a.pythonhome);
    } in
    let started = if s.py_initialized then named else initialize_here named in
    record started { rpycall = some init_module4; argv = some (narrow a.python) }

-- The part that differs by the version of Python.
unfoldable pub start_interpreter : Locale → Arguments → Session → Result (Unit {0}) × Session
unfolding start_python3 start_python2
start_interpreter l a s =
    if s.is_python3
    then if s.py_initialized
      then (ok tt, record s { rpycall = some module_dict })
      else start_python3 l a s
    else (ok tt, start_python2 a s)

unfoldable pub resolve_numpy : Host → Option String → Session → Session
resolve_numpy h (some problem) s = record s { numpy_error = some (given problem) }
resolve_numpy h none s =
    let r = import_numpy_api h.numpy none s.interp in
    if r.imported then record s { numpy_api = true; interp = r.interp } else elim r.message [
      | none ↦ record s { interp = r.interp }
      | some e ↦ record s { numpy_error = some (api e); interp = r.interp }
    ]

-- What follows the activation of a virtual environment.
unfoldable pub finish_start : Host → Arguments → Session → Session
unfolding resolve_numpy
finish_start h a s =
    let s' = resolve_numpy h a.numpy_load_error s in
    let traced =
      if ltb 0 h.dump_stack_trace then record s' { trace_ms = h.dump_stack_trace } else s' in
    record traced { polling = true }

-- What follows the start of the interpreter.
unfoldable pub mark_initialized : Host → Session → Session
unfolding initialize_type_objects
mark_initialized h s = record s {
  main_thread = h.thread_id;
  initialized = true;
  type_objects = some (initialize_type_objects h.builders s.is_python3);
}

-- The flags that are set ahead of the loading, and the loader behind it.
unfoldable pub set_flags : Host → Arguments → Session → Session
set_flags h a s = record s {
  is_python3 = a.python3;
  is_interactive = a.interactive;
  python2_warnings = if a.python3 then s.python2_warnings else suc s.python2_warnings;
  loader = (load h.linker a.libpython a.python3 h.is64bit s.loader).1;
}

-- The text of the first exception is the one that the loader keeps.
unfoldable pub py_initialize : Host → Arguments → Session → Result (Unit {0}) × Session
unfolding start_interpreter
py_initialize h a s =
    let s1 = set_flags h a s in
    let (started, s2) = start_interpreter h.locale a s1 in
    let s3 = mark_initialized h s2 in
    let done : Result (Unit {0}) × Session = (ok tt, finish_start h a s3) in
    if not (load h.linker a.libpython a.python3 h.is64bit s.loader).0
    then (err (stop "libpython cannot be loaded"), s1)
    else elim started [
      | err e ↦ (err e, s2)
      | ok v ↦ elim a.virtualenv_activate [
        | none ↦ done
        | some script ↦ elim (py_activate_virtualenv h script) [ err e ↦ (err e, s3) | ok u ↦ done ]
      ]
    ]
