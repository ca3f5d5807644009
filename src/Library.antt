-- ===== src/Library.antt =====
-- The loading of libpython (libpython.cpp): `loadLibrary`, `loadSymbol`, `closeLibrary`, and the
-- classes `SharedLibrary` and `LibPython`. The dynamic linker is a record of its answers; a handle
-- or an address is a number and `none` is NULL. A variable that takes an address is named; the
-- assignments are kept, the latest first. An error text is kept as its pieces.
pub mod Symbols
pub mod Loading
use text.Mathlib.Text.{◌==◌ as str_eq}
use pyreticulate.Base.{
  ℕ, Bool, true, false, List, [], ◌∷◌, ◌++◌, ◌==◌, Option, none, some, String, if◌then◌else◌,
}
use pyreticulate.Library.Symbols.{
  Load, common_symbols, encoder_names, python3_symbols, python2_symbols, last_symbols,
}

pub record Linker : Type 0 where
  pub dlopen : Option String → Option ℕ
  pub dlsym : ℕ → String → Option ℕ
  pub dlclose : ℕ → Bool  -- dlclose returned 0
  pub dlerror : Option String

pub record Loader : Type 0 where
  pub handle : Option ℕ  -- pLib_
  pub slots : List (String × Option ℕ)
  pub error : List String

-- The value of a variable.
abbrev pub slot : List (String × Option ℕ) → String → Option ℕ
slot [] name = none
slot ((n, a) ∷ slots) name = let rest = slot slots name in if str_eq n name then a else rest

abbrev pub last_error_message : Linker → String
last_error_message l = elim l.dlerror [ none ↦ "(Unknown error)" | some msg ↦ msg ]

unfoldable pub load_library : Linker → String → Loader → Bool × Loader
load_library l lib_path s =
    let opened = if str_eq lib_path "NA" then l.dlopen none else l.dlopen (some lib_path) in
    elim opened [
      | none ↦
          (false, record s { handle = none; error = lib_path ∷ " - " ∷ last_error_message l ∷ [] })
      | some h ↦ (true, record s { handle = some h })
    ]

unfoldable pub close_library : Linker → ℕ → Loader → Bool × Loader
close_library l h s =
    if l.dlclose h then (true, s) else (false, record s { error = last_error_message l ∷ [] })

-- `loadSymbol` of one name.
unfoldable pub load_symbol : Linker → ℕ → Load → Loader → Bool × Loader
load_symbol l h (name, var) s = elim (l.dlsym h name) [
  | none ↦ (
    false,
    record s { slots = (var, none) ∷ s.slots; error = name ∷ " - " ∷ last_error_message l ∷ [] },
  )
  | some a ↦ (true, record s { slots = (var, some a) ∷ s.slots })
]

-- `loadSymbol` of the first of several names that is there.
unfoldable pub load_first : Linker → ℕ → List String → String → Loader → Bool × Loader
unfolding load_symbol
load_first l h [] var s = (false, s)
load_first l h (name ∷ names) var s =
    let (found, s') = load_symbol l h (name, var) s in
    let rest = load_first l h names var s' in if found then (true, s') else rest

-- A run of LOAD_PYTHON_SYMBOL lines: the first that fails returns.
unfoldable pub load_all : Linker → ℕ → List Load → Loader → Bool × Loader
load_all l h [] s = (true, s)
load_all l h (d ∷ ds) s =
    let (found, s') = load_symbol l h d s in
    let rest = load_all l h ds s' in if found then rest else (false, s')

-- Two parts of a body, the second reached if the first does not return false.
abbrev pub and_then : Bool × Loader → (Loader → Bool × Loader) → Bool × Loader
and_then (true, s) k = k s
and_then (false, s) k = (false, s)

abbrev pub version_symbols : Bool → Bool → List Load
version_symbols python3 is64bit = if python3 then python3_symbols else python2_symbols is64bit

unfoldable pub load_symbols : Linker → Bool → Bool → ℕ → Loader → Bool × Loader
load_symbols l python3 is64bit h s = and_then (load_all l h common_symbols s) λ s'.
    and_then (load_first l h encoder_names "PyUnicode_AsEncodedString" s')
      λ s''. load_all l h (version_symbols python3 is64bit ++ last_symbols) s''

-- `SharedLibrary::load`
unfoldable pub load : Linker → String → Bool → Bool → Loader → Bool × Loader
unfolding load_library
load l lib_path python3 is64bit s =
    and_then (load_library l lib_path s)
      λ s'. elim s'.handle [ none ↦ (false, s') | some h ↦ load_symbols l python3 is64bit h s' ]

-- `SharedLibrary::unload`
unfoldable pub unload : Linker → Loader → Bool × Loader
unload l s = elim s.handle [ none ↦ (true, s) | some h ↦ close_library l h s ]
