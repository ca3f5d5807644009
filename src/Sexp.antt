-- ===== src/Sexp.antt =====
-- R objects, as the conversions of python.cpp read and build them: the types of `SEXPTYPE` that the
-- code tells apart, with the attributes that it looks at. An R logical or integer is a C `int`, a
-- double is its bit pattern, and NA_STRING is `none`. A `PyObjectRef` is an environment that holds
-- the address of a Python object and the `convert` flag (reticulate_types.h).
use pyreticulate.Base.{ℕ, suc, Bool, false, List, [], ◌==◌, Option, none, String}
use pyreticulate.Base.Int.{ℤ}
use pyreticulate.Bytes.{Bytes}

pub data SexpType : Type 0 where
  nilsxp lglsxp intsxp realsxp cplxsxp strsxp rawsxp vecsxp closxp extptrsxp envsxp othersxp :
      SexpType

pub record PyRef : Type 0 where
  pub address : ℕ
  pub convert : Bool
  pub classes : List Bytes

pub record Attrs : Type 0 where
  pub object : Bool  -- OBJECT(x)
  pub dim : Option (List ℕ)
  pub names : Option (List String)
  pub classes : List Bytes
  pub py_object : Option PyRef
  pub py_function_name : Option String

abbrev pub no_attrs : Attrs
no_attrs = record {
  object = false;
  dim = none;
  names = none;
  classes = [];
  py_object = none;
  py_function_name = none;
}

abbrev pub Complex : Type 0
Complex = ℕ × ℕ

mutual
  pub data Sexp : Type 0 where
    null : Sexp
    logical : Attrs → List ℤ → Sexp
    integer : Attrs → List ℤ → Sexp
    numeric : Attrs → List ℕ → Sexp
    cplx : Attrs → List Complex → Sexp
    character : Attrs → List (Option String) → Sexp
    raw : Attrs → List ℕ → Sexp
    vec : Attrs → Sexps → Sexp
    closure : Attrs → ℕ → Sexp
    external_ptr : Attrs → ℕ → Sexp
    reference : PyRef → Sexp
    other : Attrs → ℕ → Sexp

  pub data Sexps : Type 0 where
    snil : Sexps
    scons : Sexp → Sexps → Sexps

-- TYPEOF(x)
abbrev pub type_of : Sexp → SexpType
type_of null = nilsxp
type_of (logical a v) = lglsxp
type_of (integer a v) = intsxp
type_of (numeric a v) = realsxp
type_of (cplx a v) = cplxsxp
type_of (character a v) = strsxp
type_of (raw a v) = rawsxp
type_of (vec a v) = vecsxp
type_of (closure a i) = closxp
type_of (external_ptr a p) = extptrsxp
type_of (reference r) = envsxp
type_of (other a i) = othersxp

abbrev pub size : Sexps → ℕ
size snil = 0
size (scons x xs) = suc (size xs)

-- The numbers of Rinternals.h; `othersxp` stands for a type that the code never names.
abbrev pub type_code : SexpType → ℕ
type_code nilsxp = 0
type_code lglsxp = 10
type_code intsxp = 13
type_code realsxp = 14
type_code cplxsxp = 15
type_code strsxp = 16
type_code rawsxp = 24
type_code vecsxp = 19
type_code closxp = 3
type_code extptrsxp = 22
type_code envsxp = 4
type_code othersxp = 25

abbrev pub type_eq : SexpType → SexpType → Bool
type_eq s t = type_code s == type_code t
