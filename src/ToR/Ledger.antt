-- ===== src/ToR/Ledger.antt =====
-- The references that `py_to_r` (python.cpp) takes on each of its branches. One that is given to a
-- PyObjectRef counts as given back: R's finalizer releases it, also where `py_ref` throws. What the tests
-- on an object take is not counted, nor what R's functions do. PyObject_Str and PyObject_GetItem
-- succeed, and so do the elements of an iterator that has been made.
pub mod Kept
pub mod Objects
pub mod Whole
use pyreticulate.Base.{
  ℕ, ◌==◌, not, ◌&&◌, ◌||◌, Bool, true, false, List, [], ◌∷◌, map, Option, none, some, String,
  if◌then◌else◌, length, tabulate,
}
use pyreticulate.Base.Int.{pos, to_int32}
use pyreticulate.Result.{Result, ok, err, python_exception, ◌>>=◌, is_ok}
use pyreticulate.Sexp.{
  SexpType, nilsxp, lglsxp, intsxp, realsxp, cplxsxp, strsxp, type_eq, no_attrs, Attrs, Sexp, null,
  logical, integer, numeric, cplx, character, raw, vec, Sexps, snil, scons,
}
use pyreticulate.TypeNum.{
  npy_bool, npy_long, npy_double, npy_cdouble, npy_string, npy_unicode, narrow_array_typenum,
}
use pyreticulate.PyObject.{
  Array, Head, PyObject, object, Items, nil, cons, Entries, end, entry, heads, Globals, has_attr,
  py_list_check, py_list_check_exact, py_tuple_check_exact, py_dict_check_exact, py_unicode_check,
  py_byte_array_check, is_py_array, is_py_array_scalar, is_python_str, py_is_none, r_scalar_type,
  scalar_list_type, is_pandas_na, is_pandas_na_like, py_is_callable,
}
use pyreticulate.ToR.{
  narrow_dim, as_logical, scalar_to_r, scalars_to_r, named_list, all_strings, set_string_element,
  numpy_scalar_to_r, callable_to_r, opaque_to_r, key_name,
}
use pyreticulate.ToR.References.{after_name}
use pyreticulate.Interp.{Interp, take_ref, dec_ref}

-- A reference for R.
abbrev pub for_r : Interp → Interp
for_r s = dec_ref (take_ref s)

-- The results of the loops as R objects.
abbrev pub as_list : Attrs → Result Sexps × Interp → Result Sexp × Interp
as_list a (r, s) = (r >>= λ vs. ok (vec a vs), s)

-- With the copy of a dictionary, or the list of the pairs of a mapping.
abbrev pub as_named : Result (List String × Sexps) × Interp → Result Sexp × Interp
as_named (r, s) = (r >>= λ vs. ok (named_list vs), dec_ref s)

module _ (g : Globals) where
  -- `as_std_string`: bytes are made of a text.
  abbrev pub after_text : Head → Interp → Interp
  after_text h s = if py_unicode_check h || is_py_array_scalar g h then dec_ref (take_ref s) else s

  abbrev pub after_texts : List Head → Interp → Interp
  after_texts [] s = s
  after_texts (h ∷ hs) s = after_texts hs (after_text h s)

  -- `set_string_element` for each of them.
  abbrev pub after_strings : List Head → Interp → Interp
  after_strings [] s = s
  after_strings (h ∷ hs) s =
      let rest = λ (t : Interp). after_strings hs t in
      if is_pandas_na_like g h then rest s else rest (after_text h s)

  -- The rounds over numpy's iterator: the element and its item are released.
  abbrev pub after_rounds : List Head → Interp → Interp
  after_rounds [] s = s
  after_rounds (h ∷ hs) s =
      let s1 = take_ref (take_ref s) in
      let s2 = if is_pandas_na_like g h then s1 else after_text h s1 in
      after_rounds hs (dec_ref (dec_ref s2))

  unfoldable pub scalars_ledger :
      SexpType → List Head → (Interp → Result Sexps × Interp) → Interp → Result Sexp × Interp
  scalars_ledger realsxp items elements s =
      (ok (numeric no_attrs (map (λ h. h.double_value) items)), s)
  scalars_ledger intsxp items elements s =
      (ok (integer no_attrs (map (λ h. to_int32 h.long_value) items)), s)
  scalars_ledger cplxsxp items elements s =
      (ok (cplx no_attrs (map (λ h. h.complex_value) items)), s)
  scalars_ledger lglsxp items elements s =
      (ok (logical no_attrs (map (λ h. as_logical g h) items)), s)
  scalars_ledger strsxp items elements s =
      (ok (character no_attrs (map (λ h. some h.text) items)), after_texts items s)
  scalars_ledger _ items elements s = as_list no_attrs (elements s)

  unfoldable pub list_ledger :
      List Head → (Interp → Result Sexps × Interp) → Interp → Result Sexp × Interp
  unfolding scalars_ledger
  list_ledger items elements s = elim (scalar_list_type g items) [
    | err e ↦ (err e, s)
    | ok t ↦ scalars_ledger t items elements s
  ]

  -- An array of texts: the tuple for nditer, whose reference to the array is one more, and the iterator.
  unfoldable pub texts_ledger : Attrs → Array → List Head → Interp → Result Sexp × Interp
  texts_ledger a array items s =
      let s1 = dec_ref (take_ref (take_ref s)) in
      let s2 = after_rounds items (take_ref s1) in
      if array.iterates
      then (ok (character a (map (set_string_element g) items)), dec_ref (dec_ref s2))
      else (err python_exception, dec_ref s1)

  unfoldable pub objects_ledger :
      Attrs → List Head → (Interp → Result Sexps × Interp) → Interp → Result Sexp × Interp
  objects_ledger a items elements s = elim (all_strings g items) [
    | err e ↦ (err e, s)
    | ok true ↦ (ok (character a (map (set_string_element g) items)), after_strings items s)
    | ok false ↦ as_list a (elements s)
  ]

  -- The `switch` on the narrowed type.
  unfoldable pub fill_ledger :
      ℕ
      → Attrs
      → Array
      → List Head
      → (Interp → Result Sexps × Interp)
      → Interp
      → Result Sexp × Interp
  unfolding texts_ledger objects_ledger
  fill_ledger typenum a array items elements s =
      if typenum == npy_bool
      then (ok (logical a (tabulate array.size (λ i. pos (array.bools i)))), s)
      else if typenum == npy_long
      then (ok (integer a (tabulate array.size (λ i. to_int32 (array.longs i)))), s)
      else if typenum == npy_double
      then (ok (numeric a (tabulate array.size array.doubles)), s)
      else if typenum == npy_cdouble
      then (ok (cplx a (tabulate array.size array.complexes)), s)
      else if (typenum == npy_string) || (typenum == npy_unicode)
      then texts_ledger a array items s
      else objects_ledger a items elements s

  abbrev pub released : Result Sexp × Interp → Result Sexp × Interp
  released (r, s) = (r, dec_ref s)

  -- The cast takes the type's description over, and its array is released when the scope is left.
  unfoldable pub array_ledger :
      Array → List Head → (Interp → Result Sexps × Interp) → Interp → Result Sexp × Interp
  unfolding fill_ledger
  array_ledger array items elements s =
      let dims = if length array.dims == 0 then 1 ∷ [] else map narrow_dim array.dims in
      let a : Attrs = record no_attrs { dim = some dims } in
      let s1 = dec_ref (take_ref s) in
      elim (narrow_array_typenum array.typenum) [
        | err e ↦ (err e, s)
        | ok t ↦
            if not array.cast
            then (err python_exception, s1)
            else released (fill_ledger t a array items elements (take_ref s1))
      ]

  -- The descriptions of the scalar's type and of the narrowed one.
  abbrev pub after_scalar : Head → Interp → Interp
  after_scalar h s =
      let s1 = take_ref s in
      if is_ok (narrow_array_typenum h.scalar_typenum)
      then dec_ref (dec_ref (take_ref s1))
      else dec_ref s1

  -- An iterator, or an object of no other kind, is given to R.
  abbrev pub after_opaque : Head → Interp → Interp
  after_opaque h s =
      if has_attr h "__iter__" && (has_attr h "next" || has_attr h "__next__")
      then for_r s
      else if py_byte_array_check g h || is_pandas_na h
      then s
      else elim h.capsule [ some r ↦ s | none ↦ for_r s ]

  -- The branches behind the test for None, by the loops over the elements, over the items of a subclass
  -- of list, over a dictionary and over the pairs of a mapping.
  unfoldable pub object_ledger :
      Head
      → List Head
      → (Interp → Result Sexps × Interp)
      → (Interp → Result Sexps × Interp)
      → (Interp → Result (List String × Sexps) × Interp)
      → (Interp → Result (List String × Sexps) × Interp)
      → Bool
      → Interp
      → Result Sexp × Interp
  unfolding list_ledger array_ledger
  object_ledger h items elements subclass values pairs convert s = elim (r_scalar_type g h) [
    | err e ↦ (err e, s)
    | ok t ↦
        if not (type_eq t nilsxp)
        then (ok (scalar_to_r g t h), if type_eq t strsxp then after_text h s else s)
        else if py_list_check_exact g h
        then list_ledger items elements s
        else if py_tuple_check_exact g h && not (has_attr h "_fields")
        then as_list no_attrs (elements s)
        else if py_dict_check_exact g h
        then as_named (values (take_ref s))
        else if is_py_array g h
        then array_ledger h.array items elements s
        else if is_py_array_scalar g h
        then (numpy_scalar_to_r g h, after_scalar h s)
        else if py_list_check h
        then as_list no_attrs (subclass s)
        else if h.dict_instance
        then as_named (pairs (take_ref s))
        else if py_is_callable h
        then (callable_to_r g h convert, for_r s)
        else (opaque_to_r g h, after_opaque h s)
  ]

unfoldable mutual
  unfolding object_ledger

  pub to_r_ledger : Globals → PyObject → Bool → Interp → Result Sexp × Interp
  to_r_ledger g (object h items entries) convert s =
      let elements = λ (t : Interp). elements_ledger g items convert t in
      let subclass = λ (t : Interp). subclass_ledger g items convert t in
      let values = λ (t : Interp). values_ledger g entries convert t in
      let pairs = λ (t : Interp). pairs_ledger g entries convert t in
      if py_is_none g h
      then (ok null, s)
      else object_ledger g h (heads items) elements subclass values pairs convert s

  -- The loop over borrowed elements.
  pub elements_ledger : Globals → Items → Bool → Interp → Result Sexps × Interp
  elements_ledger g nil convert s = (ok snil, s)
  elements_ledger g (cons x xs) convert s =
      let (v, s1) = to_r_ledger g x convert s in
      let (vs, s2) = elements_ledger g xs convert s1 in
      elim v [ err e ↦ (err e, s1) | ok u ↦ (vs >>= λ us. ok (scons u us), s2) ]

  -- The loop over the items of a subclass of list: the index is released, the item is not.
  pub subclass_ledger : Globals → Items → Bool → Interp → Result Sexps × Interp
  subclass_ledger g nil convert s = (ok snil, s)
  subclass_ledger g (cons x xs) convert s =
      let (v, s1) = to_r_ledger g x convert (take_ref (take_ref s)) in
      let (vs, s2) = subclass_ledger g xs convert (dec_ref s1) in
      elim v [ err e ↦ (err e, s1) | ok u ↦ (vs >>= λ us. ok (scons u us), s2) ]

  -- The loop over the borrowed keys and values of a dictionary.
  pub values_ledger : Globals → Entries → Bool → Interp → Result (List String × Sexps) × Interp
  values_ledger g end convert s = (ok ([], snil), s)
  values_ledger g (entry k x es) convert s =
      let s0 = after_name (is_python_str g k) s in
      let (v, s1) = to_r_ledger g x convert s0 in
      let (vs, s2) = values_ledger g es convert s1 in
      elim (key_name g k) [
        | err e ↦ (err e, s0)
        | ok n ↦ elim v [
          | err e ↦ (err e, s1)
          | ok u ↦ (vs >>= λ us. ok (n ∷ us.0, scons u us.1), s2)
        ]
      ]

  -- The loop over the pairs of a mapping, each of which is released when its round is over.
  pub pairs_ledger : Globals → Entries → Bool → Interp → Result (List String × Sexps) × Interp
  pairs_ledger g end convert s = (ok ([], snil), s)
  pairs_ledger g (entry k x es) convert s =
      let s0 = after_name (is_python_str g k) (take_ref s) in
      let (v, s1) = to_r_ledger g x convert s0 in
      let (vs, s2) = pairs_ledger g es convert (dec_ref s1) in
      elim (key_name g k) [
        | err e ↦ (err e, dec_ref s0)
        | ok n ↦ elim v [
          | err e ↦ (err e, dec_ref s1)
          | ok u ↦ (vs >>= λ us. ok (n ∷ us.0, scons u us.1), s2)
        ]
      ]
