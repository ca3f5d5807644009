-- ===== src/Process/Symbols.antt =====
-- What is found out about the Python of R's own process.
use pyreticulate.Base.{
  inl, inr, Option-cases, ℕ, ◌≡◌, refl, ◌∙◌, arith, Bool, true, false, not, ◌||◌, some, String,
  is_some,
}
use pyreticulate.Bytes.{Bytes}
use text.Mathlib.Text.{◌==◌ as str_eq}
use pyreticulate.Result.{ok}
use pyreticulate.Wide.Texts.{Encodes, IsShort, to_string-Encodes}
use pyreticulate.Library.{Linker, Loader, slot}
use pyreticulate.Process.{
  Process, Report, nil, info, describe, python_path, load_missing, load_process_symbol, is_set,
  path_var, main_handle, read_paths, paths_from, inspect_process, main_process_python_info_unix,
}

-- The main program has a symbol.
abbrev pub has_symbol : Linker → String → Bool
has_symbol l name = is_some (l.dlsym (main_handle l) name)

load_missing-is_set :
    (l : Linker) (name : String) (s : Loader)
    → str_eq name name ≡ true
    → has_symbol l name ≡ true
    → is_set (load_missing l (main_handle l) name s) name ≡ true
unfolding load_missing
load_missing-is_set l name s same there = ground (arith, same, there)

load_missing-other :
    (l : Linker) (name v : String) (s : Loader)
    → str_eq name v ≡ false
    → is_set s v ≡ true
    → is_set (load_missing l (main_handle l) name s) v ≡ true
unfolding load_missing
load_missing-other l name v s other old = ground (arith, other, old)

load_process_symbol-is_set :
    (l : Linker) (name v w : String) (s : Loader)
    → has_symbol l name ≡ true
    → (str_eq v w || is_set s w) ≡ true
    → is_set (load_process_symbol l (main_handle l) name v s) w ≡ true
unfolding load_process_symbol
load_process_symbol-is_set l name v w s there old = ground (arith, there, old)

abbrev pub is_nil : Report → Bool
is_nil nil = true
is_nil _ = false

paths_from-is_nil :
    (l : Linker) (p : Process) (file : Bytes) (s1 s2 : Loader)
    → is_nil (paths_from l p file s1 s2).0 ≡ false
unfolding paths_from
paths_from-is_nil l p file s1 s2 = ground arith

read_paths-is_nil :
    (l : Linker) (p : Process) (file : Bytes) (s : Loader)
    → is_nil (read_paths l p file s).0 ≡ false
unfolding read_paths
read_paths-is_nil l p file s =
    let s1 =
      load_missing l (main_handle l) "PyGILState_Release"
        (load_missing l (main_handle l) "PyGILState_Ensure" s) in
    paths_from-is_nil l p file s1
      (load_process_symbol l (main_handle l) "Py_GetProgramFullPath" (path_var p.version3) s1)

inspect_process-is_nil :
    (l : Linker) (p : Process) (s : Loader) → let r = inspect_process l p s in is_nil r.0 ≡ not r.1
unfolding inspect_process
inspect_process-is_nil l p s = elim (Option-cases (slot s.slots "Py_IsInitialized")) [
  | inl e ↦ ground (arith, e)
  | inr (address, e) ↦ elim (Option-cases (p.dladdr address)) [
    | inl d ↦ ground (arith, e, d)
    | inr (file, d) ↦ ground (arith, e, d, read_paths-is_nil l p file s)
  ]
]

-- R's NULL is returned exactly if the flag for the symbols is off behind the call; and with the flag
-- off nothing is loaded, so that the calls that follow return NULL as well.
pub main_process_python_info_unix-nil :
    (l : Linker) (p : Process) (available : Bool) (s : Loader)
    → let r = main_process_python_info_unix l p available s in
      (is_nil r.0 ≡ not r.1) × (main_process_python_info_unix l p false r.2 ≡ (nil, false, r.2))
unfolding main_process_python_info_unix
main_process_python_info_unix-nil l p false s = (refl, refl)
main_process_python_info_unix-nil l p true s =
    let s1 =
      load_missing l (main_handle l) "Py_GetVersion"
        (load_missing l (main_handle l) "Py_IsInitialized" s) in
    (inspect_process-is_nil l p s1, refl)

or_left : (a b : Bool) → a ≡ true → (a || b) ≡ true
or_left a b h = ground (arith, h)

or_right : (a b : Bool) → b ≡ true → (a || b) ≡ true
or_right a b h = ground (arith, h)

path_var_self : (version3 : Bool) → str_eq (path_var version3) (path_var version3) ≡ true
path_var_self true = refl
path_var_self false = refl

paths_from-info :
    (l : Linker) (p : Process) (file path : Bytes) (s1 s2 : Loader)
    → is_set s1 "PyGILState_Ensure" ≡ true
    → is_set s2 "PyGILState_Release" ≡ true
    → is_set s2 (path_var p.version3) ≡ true
    → (python_path p).0 ≡ ok path
    → (paths_from l p file s1 s2).0 ≡ info (describe l p file path)
unfolding paths_from
paths_from-info l p file path s1 s2 ensure release var read =
    ground (arith, ensure, release, var, read)

inspect_process-read_paths :
    (l : Linker) (p : Process) (file : Bytes) (s : Loader)
    → is_set s "Py_IsInitialized" ≡ true
    → is_set s "Py_GetVersion" ≡ true
    → ((address : ℕ) → p.dladdr address ≡ some file)
    → let r = inspect_process l p s in (r.0 ≡ (read_paths l p file s).0) × (r.1 ≡ true)
unfolding inspect_process
inspect_process-read_paths l p file s initialized version placed =
    elim (Option-cases (slot s.slots "Py_IsInitialized")) [
      | inl e ↦ ground (arith, e, initialized)
      | inr (address, e) ↦ ground (arith, e, version, placed address)
    ]

read_paths-info :
    (l : Linker) (p : Process) (file path : Bytes) (s : Loader)
    → has_symbol l "PyGILState_Ensure" ≡ true
    → has_symbol l "PyGILState_Release" ≡ true
    → has_symbol l "Py_GetProgramFullPath" ≡ true
    → (python_path p).0 ≡ ok path
    → (read_paths l p file s).0 ≡ info (describe l p file path)
unfolding read_paths
read_paths-info l p file path s ensure release there read =
    let s0 = load_missing l (main_handle l) "PyGILState_Ensure" s in
    let s1 = load_missing l (main_handle l) "PyGILState_Release" s0 in
    let ensured =
      load_missing-other l "PyGILState_Release" "PyGILState_Ensure" s0 refl
        (load_missing-is_set l "PyGILState_Ensure" s refl ensure) in
    let released = load_missing-is_set l "PyGILState_Release" s0 refl release in
    paths_from-info l p file path s1
      (load_process_symbol l (main_handle l) "Py_GetProgramFullPath" (path_var p.version3) s1)
      ensured
      (load_process_symbol-is_set l "Py_GetProgramFullPath" (path_var p.version3)
        "PyGILState_Release" s1 there (or_right _ _ released))
      (load_process_symbol-is_set l "Py_GetProgramFullPath" (path_var p.version3)
        (path_var p.version3) s1 there (or_left _ _ (path_var_self p.version3)))
      read

-- In a process whose main program has the five symbols of Python, with the addresses placed in
-- `file`, and whose program's path can be read: the report gives that path, and `file` as the library
-- unless it is that path or "python"; no variable that holds NULL is called, and the symbols stay known
-- to be there.
pub main_process_python_info_unix-info :
    (l : Linker) (p : Process) (file path : Bytes) (s : Loader)
    → has_symbol l "Py_IsInitialized" ≡ true
    → has_symbol l "Py_GetVersion" ≡ true
    → has_symbol l "PyGILState_Ensure" ≡ true
    → has_symbol l "PyGILState_Release" ≡ true
    → has_symbol l "Py_GetProgramFullPath" ≡ true
    → (python_path p).0 ≡ ok path
    → ((address : ℕ) → p.dladdr address ≡ some file)
    → let r = main_process_python_info_unix l p true s in
      (r.0 ≡ info (describe l p file path)) × (r.1 ≡ true)
unfolding main_process_python_info_unix
main_process_python_info_unix-info l p file path s initialized version ensure release there read
      placed =
    let s0 = load_missing l (main_handle l) "Py_IsInitialized" s in
    let s1 = load_missing l (main_handle l) "Py_GetVersion" s0 in
    let first =
      load_missing-other l "Py_GetVersion" "Py_IsInitialized" s0 refl
        (load_missing-is_set l "Py_IsInitialized" s refl initialized) in
    let second = load_missing-is_set l "Py_GetVersion" s0 refl version in
    let (same, kept) = inspect_process-read_paths l p file s1 first second placed in
    (same ∙ read_paths-info l p file path s1 ensure release there read, kept)

-- A wide path of less than 2^29 characters that have bytes in the locale is read whole.
pub python_path-Encodes :
    (p : Process) (path : Bytes)
    → p.version3 ≡ true
    → Encodes p.locale p.wide_path path
    → IsShort p.wide_path
    → python_path p ≡ (ok path, 0)
unfolding python_path
python_path-Encodes p path three e short =
    ground (arith, three, to_string-Encodes p.locale p.wide_path path e short)
