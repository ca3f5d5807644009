-- ===== src/ToR.antt =====
-- `py_to_r` of python.cpp: a Python object as an R object. `py_to_r` recurs on the object; a branch
-- of it is a function that is given the converted elements or entries, which are not computed
-- unless the branch reads them. A Python `long` and numpy's integers are cut to a C `int`. So are the
-- dimensions of an array, each written as the residue of the C `int` that it becomes; R has the memory
-- for the vector that Rf_allocArray makes of them.
pub mod Lengths
pub mod Lists
pub mod References
pub mod Arrays
pub mod Ledger
use pyreticulate.Base.{
  ◌%◌, ◌^◌, ℕ, zero, suc, ◌==◌, not, ◌&&◌, ◌||◌, Bool, true, false, List, [], ◌∷◌, map, Option,
  none, some, String, if◌then◌else◌, flag, length, tabulate,
}
use pyreticulate.Base.Int.{ℤ, pos, to_int32}
use pyreticulate.Bytes.{codes}
use pyreticulate.Result.{Result, ok, err, python_exception, stop_num, ◌>>=◌}
use pyreticulate.Sexp.{
  SexpType, nilsxp, lglsxp, intsxp, realsxp, cplxsxp, strsxp, type_eq, no_attrs, Attrs, PyRef, Sexp,
  null, logical, integer, numeric, cplx, character, raw, vec, closure, reference, Sexps, snil,
  scons,
}
use pyreticulate.TypeNum.{
  npy_bool, npy_long, npy_double, npy_cdouble, npy_string, npy_unicode, narrow_array_typenum,
}
use pyreticulate.PyObject.{
  Array, Head, PyObject, object, Items, nil, cons, Entries, end, entry, heads, Globals, has_attr,
  py_list_check, py_list_check_exact, py_tuple_check_exact, py_dict_check_exact,
  py_byte_array_check, is_py_array, is_py_array_scalar, is_python_str, py_is_none, r_scalar_type,
  scalar_list_type, is_pandas_na, is_pandas_na_like, py_is_callable,
}
use pyreticulate.ClassNames.{py_ref}

-- R_NaReal
abbrev pub na_real : ℕ
na_real = 0x7ff0_0000_0000_07a2

-- A list with names.
abbrev pub named_list : List String × Sexps → Sexp
named_list r = vec (record no_attrs { names = some r.0 }) r.1

-- dimsVector[i] = dims[i]
abbrev pub narrow_dim : ℕ → ℕ
narrow_dim n = n % 2 ^ 32

module _ (g : Globals) where
  -- The value of an object that is compared with Py_True.
  abbrev pub as_logical : Head → ℤ
  as_logical h = pos (flag (h.address == g.py_true))

  -- The branch for a scalar.
  unfoldable pub scalar_to_r : SexpType → Head → Sexp
  scalar_to_r lglsxp h = logical no_attrs (as_logical h ∷ [])
  scalar_to_r intsxp h = integer no_attrs (to_int32 h.long_value ∷ [])
  scalar_to_r realsxp h = numeric no_attrs (h.double_value ∷ [])
  scalar_to_r cplxsxp h = cplx no_attrs (h.complex_value ∷ [])
  scalar_to_r strsxp h = character no_attrs (some h.text ∷ [])
  scalar_to_r _ h = null

  -- The vector of a list of scalars of one type, or else the list of the converted elements.
  unfoldable pub scalars_to_r : SexpType → List Head → Result Sexps → Result Sexp
  scalars_to_r realsxp items elements = ok (numeric no_attrs (map (λ h. h.double_value) items))
  scalars_to_r intsxp items elements =
      ok (integer no_attrs (map (λ h. to_int32 h.long_value) items))
  scalars_to_r cplxsxp items elements = ok (cplx no_attrs (map (λ h. h.complex_value) items))
  scalars_to_r lglsxp items elements = ok (logical no_attrs (map as_logical items))
  scalars_to_r strsxp items elements = ok (character no_attrs (map (λ h. some h.text) items))
  scalars_to_r _ items elements = do ok (vec no_attrs (← elements))

  unfoldable pub list_to_r : List Head → Result Sexps → Result Sexp
  unfolding scalars_to_r
  list_to_r items elements = scalar_list_type g items >>= λ t. scalars_to_r t items elements

  -- `set_string_element`: the element that it stores.
  unfoldable pub set_string_element : Head → Option String
  set_string_element h = if is_pandas_na_like g h then none else some h.text

  -- The search of an object array for an element that is no string.
  unfoldable pub all_strings : List Head → Result Bool
  all_strings [] = ok true
  all_strings (x ∷ xs) =
      let rest = all_strings xs in
      is_python_str g x >>= λ s. if not s && not (is_pandas_na_like g x) then ok false else rest

  -- The vector that the `switch` on the narrowed type fills.
  unfoldable pub fill_array : ℕ → Attrs → Array → List Head → Result Sexps → Result Sexp
  unfolding set_string_element all_strings
  fill_array typenum a array items elements =
      if typenum == npy_bool
      then ok (logical a (tabulate array.size (λ i. pos (array.bools i))))
      else if typenum == npy_long
      then ok (integer a (tabulate array.size (λ i. to_int32 (array.longs i))))
      else if typenum == npy_double
      then ok (numeric a (tabulate array.size array.doubles))
      else if typenum == npy_cdouble
      then ok (cplx a (tabulate array.size array.complexes))
      else if (typenum == npy_string) || (typenum == npy_unicode)
      then (if array.iterates
          then ok (character a (map set_string_element items))
          else err python_exception)
      else all_strings items >>= λ strings.
          if strings
          then ok (character a (map set_string_element items))
          else elements >>= λ vs. ok (vec a vs)

  -- The branch for a numpy array.
  unfoldable pub array_to_r : Array → List Head → Result Sexps → Result Sexp
  unfolding fill_array
  array_to_r array items elements = narrow_array_typenum array.typenum >>= λ typenum.
      let dims = if length array.dims == 0 then 1 ∷ [] else map narrow_dim array.dims in
      if not array.cast
      then err python_exception
      else fill_array typenum (record no_attrs { dim = some dims }) array items elements

  -- The branch for a numpy scalar: its value after the cast is element 0 of `array`.
  unfoldable pub numpy_scalar_to_r : Head → Result Sexp
  numpy_scalar_to_r h = narrow_array_typenum h.scalar_typenum >>= λ typenum.
      if typenum == npy_bool
      then ok (logical no_attrs (pos (h.array.bools 0) ∷ []))
      else if typenum == npy_long
      then ok (integer no_attrs (to_int32 (h.array.longs 0) ∷ []))
      else if typenum == npy_double
      then ok (numeric no_attrs (h.array.doubles 0 ∷ []))
      else if typenum == npy_cdouble
      then ok (cplx no_attrs (h.array.complexes 0 ∷ []))
      else err (stop_num "Unsupported array conversion from %d" typenum)

  -- The branch for a callable.
  unfoldable pub callable_to_r : Head → Bool → Result Sexp
  callable_to_r h convert = do
    f ← py_ref g h convert []
    ok (
        closure (record no_attrs { object = true; classes = f.classes; py_object = some f })
          (g.callable_as_function f convert))

  -- The branches behind the containers and the callables.
  unfoldable pub opaque_to_r : Head → Result Sexp
  opaque_to_r h =
      if has_attr h "__iter__" && (has_attr h "next" || has_attr h "__next__")
      then (do ok (reference (← py_ref g h true (codes "python.builtin.iterator"))))
      else if py_byte_array_check g h
      then ok (raw no_attrs h.byte_array)
      else if is_pandas_na h
      then ok (numeric no_attrs (na_real ∷ []))
      else elim h.capsule [
        | some r ↦ ok (g.capsule_read r)
        | none ↦ (do ok (reference (← py_ref g h true [])))
      ]

  -- The branches behind the test for None.
  unfoldable pub object_to_r :
      Head → List Head → Result Sexps → Result (List String × Sexps) → Bool → Result Sexp
  unfolding scalar_to_r list_to_r array_to_r numpy_scalar_to_r callable_to_r opaque_to_r
  object_to_r h items elements values convert = r_scalar_type g h >>= λ t.
      if not (type_eq t nilsxp)
      then ok (scalar_to_r t h)
      else if py_list_check_exact g h
      then list_to_r items elements
      else if py_tuple_check_exact g h && not (has_attr h "_fields")
      then (do ok (vec no_attrs (← elements)))
      else if py_dict_check_exact g h
      then (do ok (named_list (← values)))
      else if is_py_array g h
      then array_to_r h.array items elements
      else if is_py_array_scalar g h
      then numpy_scalar_to_r h
      else if py_list_check h
      then (do ok (vec no_attrs (← elements)))
      else if h.dict_instance
      then (do ok (named_list (← values)))
      else if py_is_callable h
      then callable_to_r h convert
      else opaque_to_r h

  -- The name of an entry.
  unfoldable pub key_name : Head → Result String
  key_name k = do ok (if (← is_python_str g k) then k.text else k.str)

unfoldable mutual
  unfolding object_to_r key_name

  pub py_to_r : Globals → PyObject → Bool → Result Sexp
  py_to_r g (object h items entries) convert =
      let elements = items_to_r g items convert in
      let values = entries_to_r g entries convert in
      if py_is_none g h then ok null else object_to_r g h (heads items) elements values convert

  -- The loops over elements and over entries.
  pub items_to_r : Globals → Items → Bool → Result Sexps
  items_to_r g nil convert = ok snil
  items_to_r g (cons x xs) convert =
      let rest = items_to_r g xs convert in
      py_to_r g x convert >>= λ v. rest >>= λ vs. ok (scons v vs)

  pub entries_to_r : Globals → Entries → Bool → Result (List String × Sexps)
  entries_to_r g end convert = ok ([], snil)
  entries_to_r g (entry k x es) convert =
      let value = py_to_r g x convert in
      let rest = entries_to_r g es convert in
      key_name g k >>= λ name. value >>= λ v. rest >>= λ vs. ok (name ∷ vs.0, scons v vs.1)
