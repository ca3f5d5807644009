-- ===== src/ToPy.antt =====
-- `r_to_py`, `r_to_py_cpp` and `r_to_py_numpy` of python.cpp: an R object as a Python object. The
-- constructors of CPython and numpy, the R generic `r_to_py` and the Python function of
-- `rpytools.call` are fields of `Make`. CPython's list is made in one call: PyList_New and a
-- PyList_SetItem for each element, which cannot fail on a list of that length.
pub mod Numpy
pub mod Roundtrip
pub mod References
use text.Mathlib.Text.{◌==◌ as str_eq}
use pyreticulate.Base.{
  ℕ, zero, suc, ◌+◌, ◌==◌, not, ◌&&◌, ◌||◌, Bool, true, false, List, [], ◌∷◌, map, Option, none,
  some, String, if◌then◌else◌, is_some, length, any_of,
}
use pyreticulate.Base.Int.{ℤ, pos, int_eq}
use pyreticulate.Bytes.{Bytes, codes, bytes_eq}
use pyreticulate.Result.{Result, ok, err, python_exception, stop, ◌>>=◌, stop_text}
use pyreticulate.Sexp.{
  Attrs, Complex, PyRef, Sexp, null, logical, integer, numeric, cplx, character, raw, vec, closure,
  external_ptr, reference, other, Sexps, snil, scons, size, SexpType, intsxp, realsxp, lglsxp,
  cplxsxp, strsxp, type_of, type_eq,
}
use pyreticulate.TypeNum.{npy_bool, npy_int, npy_long, npy_double, npy_cdouble, npy_object}
use pyreticulate.PyObject.{PyObject, Items, nil, cons, Globals}
use pyreticulate.ClassNames.{builtin_object}

-- The memory that PyArray_New is given, and what it holds: R's own, a copy of a logical vector as
-- C booleans, or none.
pub data Memory : Type 0 where
  ints : List ℤ → Memory
  doubles : List ℕ → Memory
  complexes : List Complex → Memory
  booleans : List Bool → Memory
  unset : Memory

pub record NewArray : Type 0 where
  pub dims : List ℕ
  pub typenum : ℕ
  pub memory : Memory
  pub flags : ℕ

pub record Make : Type 0 where
  pub none_object : PyObject  -- Py_None
  pub object_at : ℕ → PyObject  -- the object at an address
  pub int_from_long : ℤ → PyObject
  pub float_from_double : ℕ → PyObject
  pub complex_from_doubles : Complex → PyObject
  pub bool_from_long : ℤ → PyObject
  pub unicode_from_string : String → PyObject
  pub string_from_string : String → PyObject
  pub byte_array_from : List ℕ → PyObject
  pub list_of : Items → PyObject
  pub dict_new : PyObject
  pub dict_set_item_string : PyObject → String → PyObject → Option PyObject
  pub array_new : NewArray → Option PyObject
  pub array_set_objects : PyObject → Items → PyObject
  pub has_set_base_object : Bool  -- PyArray_GetNDArrayCFeatureVersion() >= NPY_1_7_API_VERSION
  pub set_base_object : PyObject → PyObject → Option PyObject
  pub assign_base : PyObject → PyObject → PyObject
  pub capsule_new : Sexp → PyObject
  pub pointer_capsule : ℕ → Sexp → PyObject
  pub make_python_function : PyObject → Bool → PyObject → Result PyObject
  pub as_reference : Sexp → Result PyRef  -- Rcpp's conversion to an environment
  pub r_to_py_generic : Sexp → Bool → Result PyObject
  pub sizeof_long : ℕ

abbrev pub npy_array_farray_ro : ℕ
npy_array_farray_ro = 0x0102

abbrev pub npy_array_owndata : ℕ
npy_array_owndata = 0x0004

abbrev pub from_option : Option PyObject → Result PyObject
from_option none = err python_exception
from_option (some o) = ok o

abbrev pub xlength : Sexp → ℕ
xlength null = 0
xlength (logical a v) = length v
xlength (integer a v) = length v
xlength (numeric a v) = length v
xlength (cplx a v) = length v
xlength (character a v) = length v
xlength (raw a v) = length v
xlength (vec a v) = size v
xlength _ = 1

-- x.attr("dim")
abbrev pub dim_of : Sexp → Option (List ℕ)
dim_of (logical a v) = a.dim
dim_of (integer a v) = a.dim
dim_of (numeric a v) = a.dim
dim_of (cplx a v) = a.dim
dim_of (character a v) = a.dim
dim_of (raw a v) = a.dim
dim_of (vec a v) = a.dim
dim_of _ = none

-- is_convertible_to_numpy
unfoldable pub is_convertible_to_numpy : Globals → Sexp → Bool
is_convertible_to_numpy g x =
    let t = type_of x in
    if not g.have_numpy
    then false
    else type_eq t intsxp
      || type_eq t realsxp
      || type_eq t lglsxp
      || type_eq t cplxsxp
      || type_eq t strsxp

abbrev pub int_nonzero : ℤ → Bool
int_nonzero z = not (int_eq z (pos 0))

-- OBJECT(x)
abbrev pub object_bit : Sexp → Bool
object_bit null = false
object_bit (logical a v) = a.object
object_bit (integer a v) = a.object
object_bit (numeric a v) = a.object
object_bit (cplx a v) = a.object
object_bit (character a v) = a.object
object_bit (raw a v) = a.object
object_bit (vec a v) = a.object
object_bit (closure a v) = a.object
object_bit (external_ptr a v) = a.object
object_bit (reference r) = not (length r.classes == 0)
object_bit (other a v) = a.object

abbrev pub inherits_builtin : List Bytes → Bool
inherits_builtin classes = any_of (λ c. bytes_eq c builtin_object) classes

module _ (g : Globals) (m : Make) where
  -- `as_python_str` of an element of a character vector; NA_STRING reads "NA".
  unfoldable pub as_python_str : Option String → Bool → PyObject
  as_python_str none true = m.none_object
  as_python_str none false =
      if g.python3 then m.unicode_from_string "NA" else m.string_from_string "NA"
  as_python_str (some s) handle_na =
      if g.python3 then m.unicode_from_string s else m.string_from_string s

  abbrev pub items_of {ℓ} : {A : Type ℓ} → (A → PyObject) → List A → Items
  items_of f [] = nil
  items_of f (v ∷ vs) = cons (f v) (items_of f vs)

  -- A vector of length 1 is passed as a scalar, any other as a list.
  unfoldable pub vector_to_py {ℓ} : {A : Type ℓ} → (A → PyObject) → List A → PyObject
  vector_to_py f [] = m.list_of nil
  vector_to_py f (v ∷ []) = f v
  vector_to_py f (v ∷ w ∷ vs) = m.list_of (items_of f (v ∷ w ∷ vs))

  -- The type number, the memory and the flags for PyArray_New.
  unfoldable pub numpy_memory : Sexp → Result (ℕ × Memory × ℕ)
  numpy_memory (integer a v) =
      ok (if m.sizeof_long == 4 then npy_long else npy_int, ints v, npy_array_farray_ro)
  numpy_memory (numeric a v) = ok (npy_double, doubles v, npy_array_farray_ro)
  numpy_memory (logical a v) =
      ok (npy_bool, booleans (map int_nonzero v), npy_array_farray_ro + npy_array_owndata)
  numpy_memory (cplx a v) = ok (npy_cdouble, complexes v, npy_array_farray_ro)
  numpy_memory (character a v) = ok (npy_object, unset, npy_array_farray_ro)
  numpy_memory _ = err (stop "Matrix type cannot be converted to python")

  -- The element conversion of a character vector, or the base object of a shared vector.
  unfoldable pub finish_array : Sexp → PyObject → Result PyObject
  finish_array (character a v) array =
      ok (m.array_set_objects array (items_of (λ s. as_python_str s true) v))
  finish_array x array =
      if m.has_set_base_object
      then from_option (m.set_base_object array (m.capsule_new x))
      else ok (m.assign_base array (m.capsule_new x))

  unfoldable pub r_to_py_numpy : Sexp → Result PyObject
  unfolding numpy_memory finish_array
  r_to_py_numpy x =
      let dims : List ℕ = elim (dim_of x) [ none ↦ xlength x ∷ [] | some ds ↦ ds ] in
      numpy_memory x >>= λ t.
      from_option (m.array_new (record { dims = dims; typenum = t.0; memory = t.1; flags = t.2 }))
      >>= λ array. finish_array x array

  -- PyObjectRef::get, with the reference that the caller is given.
  unfoldable pub ref_get : PyRef → Result PyObject
  ref_get r =
      if r.address == 0
      then err (stop "Unable to access object (object is from previous session and is now invalid)")
      else ok (m.object_at r.address)

  -- The tests that stand before the types: an attached Python object, a Python object, an array.
  unfoldable pub by_attrs : Attrs → Sexp → Result PyObject → Result PyObject
  unfolding r_to_py_numpy ref_get
  by_attrs a x by_type =
      let passed = m.as_reference x >>= λ r. ref_get r in
      let array =
        if g.have_numpy
        then r_to_py_numpy x
        else err (stop "Required version of NumPy not available") in
      elim a.py_object [
        | some r ↦ ref_get r
        | none ↦
            if inherits_builtin a.classes
            then passed
            else elim a.dim [ none ↦ by_type | some ds ↦ array ]
      ]

  -- `r_to_py` of the name that an R function may carry for Python.
  abbrev pub function_name : Attrs → PyObject
  function_name a = elim a.py_function_name [
    | none ↦ m.none_object
    | some s ↦ as_python_str (some s) false
  ]

  -- The branches by type. A list is given its converted elements, and the dictionary that they fill
  -- under given names.
  unfoldable pub by_type_to_py :
      Sexp → Bool → Result Items → (List String → Result PyObject) → Result PyObject
  unfolding by_attrs vector_to_py as_python_str
  by_type_to_py null convert elements entries = ok m.none_object
  by_type_to_py (integer a v) convert elements entries =
      by_attrs a (integer a v) (ok (vector_to_py m.int_from_long v))
  by_type_to_py (numeric a v) convert elements entries =
      by_attrs a (numeric a v) (ok (vector_to_py m.float_from_double v))
  by_type_to_py (cplx a v) convert elements entries =
      by_attrs a (cplx a v) (ok (vector_to_py m.complex_from_doubles v))
  by_type_to_py (logical a v) convert elements entries =
      by_attrs a (logical a v) (ok (vector_to_py m.bool_from_long v))
  by_type_to_py (character a v) convert elements entries =
      by_attrs a (character a v) (ok (vector_to_py (λ s. as_python_str s false) v))
  by_type_to_py (raw a v) convert elements entries = by_attrs a (raw a v) (ok (m.byte_array_from v))
  by_type_to_py (closure a i) convert elements entries =
      by_attrs a (closure a i)
        (m.make_python_function (m.capsule_new (closure a i)) convert (function_name a))
  by_type_to_py (external_ptr a p) convert elements entries =
      by_attrs a (external_ptr a p) (
        if p == 0
        then err (stop "Invalid pointer")
        else ok (m.pointer_capsule p (external_ptr a p)))
  by_type_to_py (reference r) convert elements entries =
      if inherits_builtin r.classes then ref_get r else ok (m.capsule_new (reference r))
  by_type_to_py (other a i) convert elements entries =
      by_attrs a (other a i) (ok (m.capsule_new (other a i)))
  by_type_to_py (vec a xs) convert elements entries = by_attrs a (vec a xs) (elim a.names [
    | some names ↦ entries names
    | none ↦ elements >>= λ items. ok (m.list_of items)
  ])

unfoldable mutual
  unfolding by_type_to_py

  pub r_to_py_cpp : Globals → Make → Sexp → Bool → Result PyObject
  r_to_py_cpp g m (vec a xs) convert =
      let elements = list_to_py g m xs convert in
      let entries = λ (names : List String). dict_to_py g m xs names m.dict_new convert in
      by_type_to_py g m (vec a xs) convert elements entries
  r_to_py_cpp g m x convert = by_type_to_py g m x convert (ok nil) (λ names. ok m.dict_new)

  -- The loop that fills a list; each element goes through `r_to_py`.
  pub list_to_py : Globals → Make → Sexps → Bool → Result Items
  list_to_py g m snil convert = ok nil
  list_to_py g m (scons x xs) convert =
      let item = r_to_py_cpp g m x convert in
      let rest = list_to_py g m xs convert in
      (if object_bit x then m.r_to_py_generic x convert else item) >>= λ i.
      rest >>= λ is. ok (cons i is)

  -- The loop that fills a dictionary.
  pub dict_to_py : Globals → Make → Sexps → List String → PyObject → Bool → Result PyObject
  dict_to_py g m snil names dict convert = ok dict
  dict_to_py g m (scons x xs) [] dict convert = ok dict
  dict_to_py g m (scons x xs) (name ∷ names) dict convert =
      let item = r_to_py_cpp g m x convert in
      (if object_bit x then m.r_to_py_generic x convert else item) >>= λ i.
      from_option (m.dict_set_item_string dict name i) >>= λ d. dict_to_py g m xs names d convert

-- `r_to_py`: dispatch in R if the object bit is set.
unfoldable pub r_to_py : Globals → Make → Sexp → Bool → Result PyObject
unfolding r_to_py_cpp
r_to_py g m x convert =
    if object_bit x then m.r_to_py_generic x convert else r_to_py_cpp g m x convert
