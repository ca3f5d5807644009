-- ===== src/Examples/Starts.antt =====
-- The buffers, numpy's API and the start of a session at concrete inputs.
use pyreticulate.Interp.NumpyApi.{NumpyError, npy_version, npy_1_6_api_version, import_numpy_api}
use pyreticulate.Interp.Laws.{IsBalanced, import_numpy_api_lem}
use pyreticulate.Session.{set_flags, py_initialize, have_numpy}
use pyreticulate.Session.Start.{py_initialize-ok}
use pyreticulate.Library.{load, load_symbols, load_all, load_symbol, load_first}
use pyreticulate.Wide.{to_wstring}
use pyreticulate.Readline.{c_string}
use pyreticulate.Base.{
  ◌||◌, not, refl, Option, ◌≡◌, ◌≤◌, ◌↔◌, is_some, [], ◌∷◌, false, true, false, none,
}
use pyreticulate.Bytes.{codes}
use pyreticulate.Session.{Session, Arguments, Host}
use pyreticulate.Examples.Values.{idle, numpy, linker, loader, ascii, builders}

abbrev host : Host
host = record {
  linker = linker;
  is64bit = true;
  thread_id = 11;
  set_file = λ script. true;
  read_file = λ script. none;
  run_string = λ code. true;
  numpy = numpy;
  locale = ascii;
  builders = builders;
  dump_stack_trace = 0;
}

abbrev arguments : Arguments
arguments = record {
  python = codes "/usr/bin/python3";
  libpython = "libpython3.so";
  pythonhome = codes "/usr";
  virtualenv_activate = none;
  python3 = true;
  interactive = false;
  numpy_load_error = none;
}

abbrev fresh_session : Session
fresh_session = record {
  is_python3 = false;
  is_interactive = false;
  python2_warnings = 0;
  loader = loader;
  program_name = none;
  python_home = none;
  argv = none;
  rpycall = none;
  py_initialized = false;
  by_reticulate = false;
  main_thread = 0;
  initialized = false;
  type_objects = none;
  numpy_error = none;
  numpy_api = false;
  trace_ms = 0;
  polling = false;
  interp = idle;
}

abbrev odd_arguments : Arguments
odd_arguments = record arguments { pythonhome = 200 ∷ [] }

abbrev no_message : Option NumpyError
no_message = none

import_numpy_api_lem_example :
    let r = import_numpy_api numpy no_message idle in
    ((r.imported ≡ true) ↔ (
      (numpy.import_error ≡ none)
      × (numpy.api_error ≡ none)
      × (numpy.pointer_error ≡ none)
      × (numpy.c_version ≡ npy_version)
      × (npy_1_6_api_version ≤ numpy.feature)))
    × (r.imported ≡ true → r.message ≡ no_message)
    × (r.imported ≡ false → is_some r.message ≡ true)
    × IsBalanced idle r.interp
import_numpy_api_lem_example = import_numpy_api_lem numpy no_message idle

py_initialize-ok_example :
    let t = (py_initialize host arguments fresh_session).1 in
    (t.initialized ≡ true)
    × (t.main_thread ≡ host.thread_id)
    × (t.polling ≡ true)
    × (t.py_initialized ≡ true)
    × (t.by_reticulate ≡ (fresh_session.by_reticulate || not fresh_session.py_initialized))
    × (fresh_session.numpy_error ≡ none
        → fresh_session.numpy_api ≡ false
        → have_numpy t ≡ t.numpy_api)
unfolding py_initialize load load_symbols load_all load_symbol load_first set_flags to_wstring
    c_string
py_initialize-ok_example = py_initialize-ok host arguments fresh_session refl
