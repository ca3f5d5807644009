-- ===== src/ToPy/Numpy.antt =====
-- The numpy type that `r_to_py_numpy` (python.cpp) chooses, and the R type that it comes back as.
use pyreticulate.Base.{ℕ, ◌≡◌, ◌==◌, ◌&&◌, if◌then◌else◌, arith}
use pyreticulate.Result.{Result, ok, err}
use pyreticulate.Sexp.{
  type_code, SexpType, nilsxp, lglsxp, intsxp, realsxp, cplxsxp, strsxp, Sexp, type_of,
}
use pyreticulate.TypeNum.{npy_bool, npy_long, npy_double, npy_cdouble, narrow_array_typenum}
use pyreticulate.PyObject.{Globals}
use pyreticulate.ToPy.{Make, Memory, numpy_memory}

-- The R type that `py_to_r` gives to an array of a narrowed type, an object array being of strings.
abbrev pub vector_type : Result ℕ → SexpType
vector_type (err e) = nilsxp
vector_type (ok t) =
    if t == npy_bool
    then lglsxp
    else if t == npy_long
    then intsxp
    else if t == npy_double
    then realsxp
    else if t == npy_cdouble
    then cplxsxp
    else strsxp

-- An R vector for which a numpy type is chosen comes back, by the narrowed type, as a vector of the
-- type that it had; but where a C `long` has 4 bytes, an integer vector comes back as a double one.
pub vector_type-numpy_memory :
    (g : Globals) (m : Make) (x : Sexp) (r : ℕ × Memory × ℕ)
    → numpy_memory g m x ≡ ok r
    → vector_type (narrow_array_typenum r.0)
      ≡ (if (m.sizeof_long == 4) && type_code (type_of x) == 13 then realsxp else type_of x)
unfolding numpy_memory narrow_array_typenum
vector_type-numpy_memory g m x r h = ground arith
