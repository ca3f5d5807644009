-- ===== src/PyObject.antt =====
-- Python objects as the conversions see them, and the type tests of libpython.h. What CPython and
-- numpy would answer about an object is data here: a `Head` holds the answers that do not lead to
-- another object, and a `PyObject` adds the elements that PyList_GetItem, PyTuple_GetItem,
-- PyObject_GetItem, numpy's iterator or an array's data give, and the entries of a mapping. The
-- macros and the functions of python.cpp that only ask such questions are definitions.
use text.Mathlib.Text.{◌==◌ as str_eq}
use pyreticulate.Base.{
  ℕ, suc, ◌/◌, ◌%◌, ◌^◌, ◌==◌, not, ◌&&◌, ◌||◌, Bool, true, false, List, [], ◌∷◌, Option, none,
  some, String, if◌then◌else◌, any_of, length,
}
use pyreticulate.Base.Int.{ℤ}
use pyreticulate.Bytes.{Bytes}
use pyreticulate.Result.{Result, ok, ◌>>=◌}
use pyreticulate.Sexp.{
  SexpType, nilsxp, lglsxp, intsxp, realsxp, cplxsxp, strsxp, type_eq, PyRef, Sexp,
}
use pyreticulate.TypeNum.{narrow_array_typenum, npy_string, npy_unicode}

-- An array after PyArray_CastToType to its narrowed type: `false` of `cast` is a failed cast, and
-- the functions read its memory at an index.
pub record Array : Type 0 where
  pub dims : List ℕ
  pub size : ℕ  -- PyArray_SIZE
  pub typenum : ℕ
  pub cast : Bool
  pub bools : ℕ → ℕ
  pub longs : ℕ → ℤ
  pub doubles : ℕ → ℕ
  pub complexes : ℕ → ℕ × ℕ
  pub iterates : Bool  -- numpy's nditer of it can be made, and gives its elements

pub record Head : Type 0 where
  pub address : ℕ
  pub ob_type : ℕ  -- Py_TYPE(o)
  pub tp_flags : ℕ  -- PyType_GetFlags(Py_TYPE(o))
  pub supertypes : List ℕ  -- the types of which Py_TYPE(o) is a subtype
  pub attrs : List String  -- the names that PyObject_HasAttrString finds
  pub callable : Bool  -- PyCallable_Check(o) == 1
  pub dict_instance : Bool  -- PyObject_IsInstance(o, dict) is not 0
  pub mro : Option (List (Option Bytes × Bytes))  -- __module__ and __name__ of inspect.getmro
  pub class_module : Option String  -- __module__ of its class
  pub class_name : Option String  -- __name__ of its class
  pub long_value : ℤ  -- PyInt_AsLong
  pub double_value : ℕ  -- PyFloat_AsDouble
  pub complex_value : ℕ × ℕ  -- PyComplex_RealAsDouble, PyComplex_ImagAsDouble
  pub null_bytes : Bool  -- PyString_AsStringAndSize fails
  pub text : String  -- its bytes, as as_std_string reads them
  pub str : String  -- the text of PyObject_Str
  pub array : Array
  pub scalar_typenum : ℕ  -- of PyArray_DescrFromScalar
  pub byte_array : List ℕ
  pub capsule : Option ℕ  -- the R object of a valid "r_object" capsule

mutual
  pub data PyObject : Type 0 where
    object : Head → Items → Entries → PyObject

  pub data Items : Type 0 where
    nil : Items
    cons : PyObject → Items → Items

  pub data Entries : Type 0 where
    end : Entries
    entry : Head → PyObject → Entries → Entries

abbrev pub head : PyObject → Head
head (object h items entries) = h

abbrev pub heads : Items → List Head
heads nil = []
heads (cons x xs) = head x ∷ heads xs

abbrev pub keys : Entries → List Head
keys end = []
keys (entry k x es) = k ∷ keys es

abbrev pub item_count : Items → ℕ
item_count nil = 0
item_count (cons x xs) = suc (item_count xs)

-- The addresses that libpython.cpp loads, the state of numpy, and the R functions and capsules that
-- the conversions call.
pub record Globals : Type 0 where
  pub python3 : Bool
  pub have_numpy : Bool
  pub py_none : ℕ
  pub py_true : ℕ
  pub py_false : ℕ
  pub np_nan : ℕ
  pub int_type : ℕ
  pub float_type : ℕ
  pub complex_type : ℕ
  pub string_type : ℕ
  pub list_type : ℕ
  pub tuple_type : ℕ
  pub dict_type : ℕ
  pub byte_array_type : ℕ
  pub array_type : ℕ
  pub generic_type : ℕ
  pub filter_classes : List Bytes → List Bytes  -- py_filter_classes
  pub callable_as_function : PyRef → Bool → ℕ  -- py_callable_as_function
  pub capsule_read : ℕ → Sexp

-- PyType_FastSubclass of the type of `h`, by the number of the flag's bit.
abbrev pub has_feature : Head → ℕ → Bool
has_feature h bit = (h.tp_flags / 2 ^ bit) % 2 == 1

abbrev pub py_long_check : Head → Bool
py_long_check h = has_feature h 24

abbrev pub py_list_check : Head → Bool
py_list_check h = has_feature h 25

abbrev pub py_unicode_check : Head → Bool
py_unicode_check h = has_feature h 28

-- PyObject_HasAttrString
abbrev pub has_attr : Head → String → Bool
has_attr h name = any_of (λ a. str_eq a name) h.attrs

abbrev pub attr_is : Option String → String → Bool
attr_is none name = false
attr_is (some a) name = str_eq a name

unfoldable pub is_pandas_na : Head → Bool
is_pandas_na h =
    attr_is h.class_module "pandas._libs.missing"
    && (attr_is h.class_name "NAType" || attr_is h.class_name "C_NAType")

-- The overload of `py_is_callable` on a `PyObject*`.
unfoldable pub py_is_callable : Head → Bool
py_is_callable h = h.callable || has_attr h "__call__"

module _ (g : Globals) where
  abbrev pub py_bool_check : Head → Bool
  py_bool_check h = (h.address == g.py_false) || (h.address == g.py_true)

  abbrev pub py_int_check : Head → Bool
  py_int_check h = h.ob_type == g.int_type

  abbrev pub py_float_check : Head → Bool
  py_float_check h = h.ob_type == g.float_type

  abbrev pub py_complex_check : Head → Bool
  py_complex_check h = h.ob_type == g.complex_type

  abbrev pub py_string_check : Head → Bool
  py_string_check h = h.ob_type == g.string_type

  abbrev pub py_list_check_exact : Head → Bool
  py_list_check_exact h = h.ob_type == g.list_type

  abbrev pub py_tuple_check_exact : Head → Bool
  py_tuple_check_exact h = h.ob_type == g.tuple_type

  abbrev pub py_dict_check_exact : Head → Bool
  py_dict_check_exact h = h.ob_type == g.dict_type

  abbrev pub py_byte_array_check : Head → Bool
  py_byte_array_check h = h.ob_type == g.byte_array_type

  -- PyObject_TypeCheck
  abbrev pub type_check : Head → ℕ → Bool
  type_check h tp = (h.ob_type == tp) || any_of (λ t. t == tp) h.supertypes

  abbrev pub py_array_check : Head → Bool
  py_array_check h = type_check h g.array_type

  abbrev is_zero_dim : Head → Bool
  is_zero_dim h = py_array_check h && length h.array.dims == 0

  -- isPyArray
  unfoldable pub is_py_array : Head → Bool
  is_py_array h = if not g.have_numpy then false else py_array_check h

  -- isPyArrayScalar
  unfoldable pub is_py_array_scalar : Head → Bool
  is_py_array_scalar h =
      if not g.have_numpy then false else type_check h g.generic_type || is_zero_dim h

  unfoldable pub is_numpy_str : Head → Result Bool
  unfolding is_py_array_scalar
  is_numpy_str h = if not (is_py_array_scalar h) then ok false else do
    typenum ← narrow_array_typenum h.scalar_typenum
    ok ((typenum == npy_string) || (typenum == npy_unicode))

  unfoldable pub is_python_str : Head → Result Bool
  is_python_str h =
      if py_unicode_check h
      then ok true
      else if not g.python3 && py_string_check h && not h.null_bytes
      then ok true
      else is_numpy_str h

  abbrev pub py_is_none : Head → Bool
  py_is_none h = h.address == g.py_none

  -- The type of the R scalar that stands for the object, `nilsxp` if none does.
  unfoldable pub r_scalar_type : Head → Result SexpType
  r_scalar_type h =
      if py_bool_check h
      then ok lglsxp
      else if py_int_check h || py_long_check h
      then ok intsxp
      else if py_float_check h
      then ok realsxp
      else if py_complex_check h
      then ok cplxsxp
      else (do str ← is_python_str h; ok (if str then strsxp else nilsxp))

  -- The loop of `scalar_list_type` over the elements behind the first.
  unfoldable pub all_scalars_of : SexpType → List Head → Result SexpType
  all_scalars_of t [] = ok t
  all_scalars_of t (x ∷ xs) =
      let rest = all_scalars_of t xs in
      r_scalar_type x >>= λ next. if type_eq next t then rest else ok nilsxp

  unfoldable pub scalar_list_type : List Head → Result SexpType
  unfolding all_scalars_of
  scalar_list_type [] = ok nilsxp
  scalar_list_type (first ∷ rest) =
      r_scalar_type first >>= λ t. if type_eq t nilsxp then ok nilsxp else all_scalars_of t rest

  unfoldable pub is_pandas_na_like : Head → Bool
  unfolding is_pandas_na
  is_pandas_na_like h = is_pandas_na h || (h.address == g.py_none) || (h.address == g.np_nan)
