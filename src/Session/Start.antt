-- ===== src/Session/Start.antt =====
-- What `py_initialize` (python.cpp) leaves, on each path.
use mathlib.Core.Path.{ap₂}
use pyreticulate.Base.{
  ap, refl, ◌∙◌, ◌≡◌, ◌≢◌, true, false, not, ◌||◌, ◌&&◌, ◌≤◌, is_some, length, Option, none, some,
  String, arith,
}
use pyreticulate.Result.{ok, err, stop}
use pyreticulate.Readline.{c_string}
use pyreticulate.Wide.{WideString, Locale, to_wstring, mbstowcs}
use pyreticulate.Wide.Texts.{take-all}
use pyreticulate.Library.{load}
use pyreticulate.Interp.NumpyApi.{import_numpy_api}
use pyreticulate.Session.Objects.{initialize_type_objects}
use pyreticulate.Session.{
  Session, Arguments, Host, wide, inittab, have_numpy, py_activate_virtualenv, py_initialize,
  set_flags, mark_initialized, finish_start, resolve_numpy, start_interpreter, start_python3,
  start_python2,
}

-- What is not yet known of numpy is taken for absence of a problem.
abbrev pub IsFresh : Session → Type 0
IsFresh s =
    (s.numpy_error ≡ none) × (s.numpy_api ≡ false) × (s.polling ≡ false) × (s.initialized ≡ false)

resolve_numpy-consistent :
    (h : Host) (problem : Option String) (s : Session)
    → s.numpy_error ≡ none
    → s.numpy_api ≡ false
    → have_numpy (resolve_numpy h problem s) ≡ (resolve_numpy h problem s).numpy_api
unfolding resolve_numpy import_numpy_api
resolve_numpy-consistent h problem s e f = ground arith

resolve_numpy-keeps :
    (h : Host) (problem : Option String) (s : Session)
    → let t = resolve_numpy h problem s in
      (t.initialized ≡ s.initialized)
      × (t.main_thread ≡ s.main_thread)
      × (t.py_initialized ≡ s.py_initialized)
      × (t.by_reticulate ≡ s.by_reticulate)
unfolding resolve_numpy
resolve_numpy-keeps h problem s = ground arith

finish_start-keeps :
    (h : Host) (a : Arguments) (s : Session)
    → let t = finish_start h a s in
      (t.initialized ≡ s.initialized)
      × (t.main_thread ≡ s.main_thread)
      × (t.polling ≡ true)
      × (t.py_initialized ≡ s.py_initialized)
      × (t.by_reticulate ≡ s.by_reticulate)
unfolding finish_start
finish_start-keeps h a s = ground (arith, resolve_numpy-keeps h a.numpy_load_error s)

finish_start-consistent :
    (h : Host) (a : Arguments) (s : Session)
    → s.numpy_error ≡ none
    → s.numpy_api ≡ false
    → have_numpy (finish_start h a s) ≡ (finish_start h a s).numpy_api
unfolding finish_start
finish_start-consistent h a s e f = ground (arith, resolve_numpy-consistent h a.numpy_load_error s)

start_interpreter-keeps :
    (l : Locale) (a : Arguments) (s : Session)
    → let t = (start_interpreter l a s).1 in
      (t.initialized ≡ s.initialized)
      × (t.polling ≡ s.polling)
      × (t.numpy_error ≡ s.numpy_error)
      × (t.numpy_api ≡ s.numpy_api)
unfolding start_interpreter start_python3 start_python2
start_interpreter-keeps l a s = ground arith

start_interpreter-ok :
    (l : Locale) (a : Arguments) (s : Session)
    → (start_interpreter l a s).0 ≡ ok tt
    → let t = (start_interpreter l a s).1 in
      (t.py_initialized ≡ true) × (t.by_reticulate ≡ (s.by_reticulate || not s.py_initialized))
unfolding start_interpreter start_python3 start_python2
start_interpreter-ok l a s e = ground arith

set_flags-keeps :
    (h : Host) (a : Arguments) (s : Session)
    → let t = set_flags h a s in
      (t.py_initialized ≡ s.py_initialized)
      × (t.by_reticulate ≡ s.by_reticulate)
      × (t.numpy_error ≡ s.numpy_error)
      × (t.numpy_api ≡ s.numpy_api)
      × (t.polling ≡ s.polling)
unfolding set_flags
set_flags-keeps h a s = (refl, refl, refl, refl, refl)

-- A start that succeeds has been through each of its stages.
py_initialize-done :
    (h : Host) (a : Arguments) (s : Session)
    → (py_initialize h a s).0 ≡ ok tt
    → let started = start_interpreter h.locale a (set_flags h a s) in
      (started.0 ≡ ok tt)
      × ((py_initialize h a s).1 ≡ finish_start h a (mark_initialized h started.1))
unfolding py_initialize
py_initialize-done h a s e = ground arith

-- When libpython cannot be loaded the start fails, and the session is not marked as initialised,
-- no interpreter is started, numpy's state does not change and no polling begins.
pub py_initialize-not_loaded :
    (h : Host) (a : Arguments) (s : Session)
    → (load h.linker a.libpython a.python3 h.is64bit s.loader).0 ≡ false
    → let r = py_initialize h a s in
      (r.0 ≢ ok tt)
      × (r.1.initialized ≡ s.initialized)
      × (r.1.py_initialized ≡ s.py_initialized)
      × (r.1.by_reticulate ≡ s.by_reticulate)
      × (r.1.numpy_error ≡ s.numpy_error)
      × (r.1.numpy_api ≡ s.numpy_api)
      × (r.1.polling ≡ s.polling)
unfolding py_initialize set_flags
py_initialize-not_loaded h a s e = ground arith

-- A start that succeeds marks the session as initialised on the calling thread and begins the
-- polling; CPython is up, and it counts as started by the package exactly if it did already or was
-- not up before; and of a session that knew of no problem with numpy and had not loaded its API,
-- numpy counts as available exactly if its API is loaded.
pub py_initialize-ok :
    (h : Host) (a : Arguments) (s : Session)
    → (py_initialize h a s).0 ≡ ok tt
    → let t = (py_initialize h a s).1 in
      (t.initialized ≡ true)
      × (t.main_thread ≡ h.thread_id)
      × (t.polling ≡ true)
      × (t.py_initialized ≡ true)
      × (t.by_reticulate ≡ (s.by_reticulate || not s.py_initialized))
      × (s.numpy_error ≡ none → s.numpy_api ≡ false → have_numpy t ≡ t.numpy_api)
unfolding mark_initialized
py_initialize-ok h a s e =
    let s1 = set_flags h a s in
    let s2 = (start_interpreter h.locale a s1).1 in
    let s3 = mark_initialized h s2 in
    let (up, same) = py_initialize-done h a s e in
    let (i, m, p, u, b) = finish_start-keeps h a s3 in
    let (u', b') = start_interpreter-ok h.locale a s1 up in
    let (ki, kp, ke, kn) = start_interpreter-keeps h.locale a s1 in
    let (fu, fb, fe, fn, fp) = set_flags-keeps h a s in
    rw same (
      i,
      m,
      p,
      u ∙ u',
      b ∙ b' ∙ ap₂ (λ x y. x || not y) fb fu,
      λ no_error no_api. finish_start-consistent h a s3 (ke ∙ fe ∙ no_error) (kn ∙ fn ∙ no_api),
    )

-- With Python 3 that is not up yet and a path of the interpreter or of its home that the locale cannot
-- read, the start fails with the text of std::wstring behind the loading of libpython: no interpreter
-- is started, the session is not marked as initialised and keeps its type objects, and the module
-- rpycall, numpy and the polling are as they were.
pub py_initialize-unreadable :
    (h : Host) (a : Arguments) (s : Session)
    → (load h.linker a.libpython a.python3 h.is64bit s.loader).0 ≡ true
    → a.python3 ≡ true
    → s.py_initialized ≡ false
    → (is_some (h.locale.decode (c_string a.python))
        && is_some (h.locale.decode (c_string a.pythonhome)))
      ≡ false
    → let r = py_initialize h a s in
      (r.0 ≡ err (stop h.locale.resize_error))
      × (r.1.py_initialized ≡ false)
      × (r.1.by_reticulate ≡ s.by_reticulate)
      × (r.1.initialized ≡ s.initialized)
      × (r.1.type_objects ≡ s.type_objects)
      × (r.1.rpycall ≡ s.rpycall)
      × (r.1.numpy_error ≡ s.numpy_error)
      × (r.1.polling ≡ s.polling)
unfolding py_initialize set_flags start_interpreter start_python3 to_wstring mbstowcs
py_initialize-unreadable h a s loaded three down unread = ground arith

-- With Python 3 that is not up yet and paths that the locale reads, the interpreter is started with
-- their wide texts: the program's as the name and as the only argument, the other as the home.
pub start_interpreter-wide :
    (l : Locale) (a : Arguments) (s : Session) (program home : WideString)
    → s.is_python3 ≡ true
    → s.py_initialized ≡ false
    → l.decode (c_string a.python) ≡ some program
    → l.decode (c_string a.pythonhome) ≡ some home
    → length program ≤ length a.python
    → length home ≤ length a.pythonhome
    → let r = start_interpreter l a s in
      (r.0 ≡ ok tt)
      × (r.1.program_name ≡ some (wide program))
      × (r.1.argv ≡ some (wide program))
      × (r.1.python_home ≡ some (wide home))
      × (r.1.rpycall ≡ some inittab)
      × (r.1.by_reticulate ≡ true)
unfolding start_interpreter start_python3 to_wstring mbstowcs
start_interpreter-wide l a s program home three down p q short short' =
    ground
      (arith, take-all (length a.python) program short, take-all (length a.pythonhome) home short')

-- A script of a virtual environment that cannot be run makes the start fail, and yet leaves a
-- fresh session marked as initialised, with numpy counted as available although its API was not
-- loaded, and without polling.
pub py_initialize-not_activated :
    (h : Host) (a : Arguments) (s : Session) (script : String)
    → IsFresh s
    → (load h.linker a.libpython a.python3 h.is64bit s.loader).0 ≡ true
    → (start_interpreter h.locale a (set_flags h a s)).0 ≡ ok tt
    → a.virtualenv_activate ≡ some script
    → py_activate_virtualenv h script ≢ ok tt
    → let r = py_initialize h a s in
      (r.0 ≢ ok tt)
      × (r.1.initialized ≡ true)
      × (have_numpy r.1 ≡ true)
      × (r.1.numpy_api ≡ false)
      × (r.1.polling ≡ false)
unfolding py_initialize mark_initialized
py_initialize-not_activated h a s script fresh loaded up e fails =
    ground (arith, start_interpreter-keeps h.locale a (set_flags h a s), set_flags-keeps h a s)

start_interpreter-is_python3 :
    (l : Locale) (a : Arguments) (s : Session)
    → (start_interpreter l a s).1.is_python3 ≡ s.is_python3
unfolding start_interpreter start_python3 start_python2
start_interpreter-is_python3 l a s = ground arith

finish_start-type_objects :
    (h : Host) (a : Arguments) (s : Session) → (finish_start h a s).type_objects ≡ s.type_objects
unfolding finish_start resolve_numpy
finish_start-type_objects h a s = ground arith

-- A start that succeeds leaves the type objects of its version of Python.
pub py_initialize-type_objects :
    (h : Host) (a : Arguments) (s : Session)
    → (py_initialize h a s).0 ≡ ok tt
    → (py_initialize h a s).1.type_objects ≡ some (initialize_type_objects h.builders a.python3)
unfolding mark_initialized set_flags
py_initialize-type_objects h a s e =
    let s1 = set_flags h a s in
    let s2 = (start_interpreter h.locale a s1).1 in
    let s3 = mark_initialized h s2 in
    let (up, same) = py_initialize-done h a s e in
    ap (λ (t : Session). t.type_objects) same
    ∙ finish_start-type_objects h a s3
    ∙ ap (λ b. some (initialize_type_objects h.builders b))
        (start_interpreter-is_python3 h.locale a s1)
