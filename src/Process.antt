-- ===== src/Process.antt =====
-- The Python that R's own process runs in (`main_process_python_info_unix` of python.cpp). The dynamic
-- linker is that of Library. A call through a variable that holds NULL ends the process.
pub mod Symbols
pub mod Trace
use pyreticulate.Base.{
  ℕ, Bool, true, false, not, ◌&&◌, ◌||◌, List, [], ◌∷◌, ◌++◌, Option, none, some, String,
  if◌then◌else◌, is_some,
}
use pyreticulate.Bytes.{Bytes, codes, bytes_eq}
use pyreticulate.Readline.{c_string}
use pyreticulate.Result.{Result, ok, err, Failure}
use pyreticulate.Wide.{WideString, Locale, to_string}
use pyreticulate.Library.{Linker, Loader, slot}

-- What the symbols give when they are called: `dladdr` of an address, whether the version begins with
-- a digit of at least 3, and the path of the program, wide with Python 3.
pub record Process : Type 0 where
  pub dladdr : ℕ → Option Bytes
  pub version3 : Bool
  pub locale : Locale
  pub wide_path : WideString
  pub narrow_path : Bytes

pub record Info : Type 0 where
  pub python : Bytes
  pub libpython : Option Bytes  -- `none` is NA

pub data Report : Type 0 where
  nil : Report
  info : Info → Report
  null_call : String → Report
  threw : Failure → Report

-- The program's path as a text, and how many buffers stay behind.
unfoldable pub python_path : Process → Result Bytes × ℕ
unfolding to_string
python_path p = if p.version3 then to_string p.locale p.wide_path else (ok p.narrow_path, 0)

-- strcmp(a, b) == 0
abbrev pub same_text : Bytes → Bytes → Bool
same_text a b = bytes_eq (c_string a) (c_string b)

-- `loadSymbol` of python.cpp: the address of a name, or NULL.
unfoldable pub load_process_symbol : Linker → ℕ → String → String → Loader → Loader
load_process_symbol l h name var s = record s { slots = (var, l.dlsym h name) ∷ s.slots }

-- The same where the variable is still NULL.
unfoldable pub load_missing : Linker → ℕ → String → Loader → Loader
unfolding load_process_symbol
load_missing l h name s =
    let loaded = load_process_symbol l h name name s in
    if is_some (slot s.slots name) then s else loaded

abbrev pub is_set : Loader → String → Bool
is_set s name = is_some (slot s.slots name)

-- The variable for the program's path.
abbrev pub path_var : Bool → String
path_var version3 = if version3 then "Py_GetProgramFullPath" else "Py_GetProgramFullPath_v2"

-- The handle of the main program, which `dlclose` leaves as it is.
abbrev pub main_handle : Linker → ℕ
main_handle l = elim (l.dlopen none) [ none ↦ 0 | some h ↦ h ]

module _ (l : Linker) (p : Process) where
  -- The info once the path is read.
  unfoldable pub describe : Bytes → Bytes → Info
  describe dli_fname path = record {
    python = path;
    libpython =
        if same_text dli_fname path || same_text dli_fname (codes "python")
        then none
        else some dli_fname;
  }

  -- The report, with the variables behind the loading of the lock's functions and of the path's. The
  -- lock is released whether or not the path could be read.
  unfoldable pub paths_from : Bytes → Loader → Loader → Report × Loader
  unfolding describe python_path
  paths_from dli_fname s1 s2 =
      if not (is_set s1 "PyGILState_Ensure")
      then (null_call "PyGILState_Ensure", s1)
      else if not (is_set s2 (path_var p.version3))
      then (null_call (path_var p.version3), s2)
      else if not (is_set s2 "PyGILState_Release")
      then (null_call "PyGILState_Release", s2)
      else elim (python_path p).0 [
        | err e ↦ (threw e, s2)
        | ok path ↦ (info (describe dli_fname path), s2)
      ]

  unfoldable pub read_paths : Bytes → Loader → Report × Loader
  unfolding load_missing load_process_symbol paths_from
  read_paths dli_fname s =
      let s1 =
        load_missing l (main_handle l) "PyGILState_Release"
          (load_missing l (main_handle l) "PyGILState_Ensure" s) in
      paths_from dli_fname s1
        (load_process_symbol l (main_handle l) "Py_GetProgramFullPath" (path_var p.version3) s1)

  -- From the check of the first two symbols on.
  unfoldable pub inspect_process : Loader → Report × Bool × Loader
  unfolding read_paths
  inspect_process s =
      let paths = λ (name : Bytes). read_paths name s in
      if not (is_set s "Py_IsInitialized" && is_set s "Py_GetVersion")
      then (nil, false, s)
      else elim (slot s.slots "Py_IsInitialized") [
        | none ↦ (nil, false, s)
        | some address ↦ elim (p.dladdr address) [
          | none ↦ (nil, false, s)
          | some name ↦ let (r, s2) = paths name in (r, true, s2)
        ]
      ]

  -- The static flag `py_symbols_available` goes in and out.
  unfoldable pub main_process_python_info_unix : Bool → Loader → Report × Bool × Loader
  unfolding load_missing inspect_process
  main_process_python_info_unix false s = (nil, false, s)
  main_process_python_info_unix true s = inspect_process (
      load_missing l (main_handle l) "Py_GetVersion"
        (load_missing l (main_handle l) "Py_IsInitialized" s))
