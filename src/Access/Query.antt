-- ===== src/Access/Query.antt =====
-- Questions about a Python object (python.cpp): `py_list_length`, `py_len_impl`, `py_bool_impl`,
-- `py_has_method`, `py_has_attr_impl`, `py_list_attributes_impl`, `py_str_impl`, `py_repr` and
-- `py_slice`. The conversion of a C `long` to a double is a parameter.
pub mod Answers
use pyreticulate.Base.{
  ℕ, ◌+◌, ◌≡◌, ◌<◌, ◌≤◌, refl, arith, Bool, true, false, not, ◌||◌, List, [], ◌∷◌, Option, none,
  some, ◌⊎◌, inl, inr, if◌then◌else◌, leb, flag, Bool-cases, is_some, String,
}
use pyreticulate.Base.Int.{ℤ, pos, negsuc, to_int32, to_int32-IsInt32}
use pyreticulate.Result.{Result, ok, err, ◌>>=◌, is_ok}
use pyreticulate.Sexp.{
  Sexp, realsxp, type_of, no_attrs, logical, integer, numeric, character, PyRef,
}
use pyreticulate.PyObject.{Head, Globals, py_unicode_check, is_py_array_scalar, is_python_str}
use pyreticulate.Interp.{Interp, fetch, restore, raise, take_ref, dec_ref}
use pyreticulate.Access.{Answer, returned, raised, new_ref, throw_error, own_ref}
use pyreticulate.Access.Ledger.{error_behind, is_returned}
use pyreticulate.Access.Dict.{as_std_string}
use pyreticulate.Access.Dict.Keys.{Leaves, as_std_string-Leaves}

module _ (as_double : ℤ → ℕ) where
  -- A `Py_ssize_t` as an R number.
  unfoldable pub length_to_r : ℤ → Sexp
  length_to_r (pos n) =
      if leb n 2147483647
      then integer no_attrs (to_int32 (pos n) ∷ [])
      else numeric no_attrs (as_double (pos n) ∷ [])
  length_to_r (negsuc n) = integer no_attrs (to_int32 (negsuc n) ∷ [])

  -- The status of PyList_Size is not looked at.
  unfoldable pub py_list_length : Answer ℕ → Interp → Result Sexp × Interp
  unfolding length_to_r
  py_list_length (returned n) s = (ok (length_to_r (pos n)), s)
  py_list_length (raised e) s = (ok (length_to_r (negsuc 0)), raise e s)

  -- `defaultValue` is `none` for R_NilValue.
  unfoldable pub py_len_impl : Answer ℕ → Option Sexp → Interp → Result Sexp × Interp
  unfolding length_to_r throw_error
  py_len_impl (returned n) none s = (ok (length_to_r (pos n)), s)
  py_len_impl (returned n) (some v) s = let (er, s1) = fetch s in (ok (length_to_r (pos n)), s1)
  py_len_impl (raised e) none s = throw_error (raise e s)
  py_len_impl (raised e) (some v) s = let (er, s1) = fetch s in (ok v, restore er (raise e s1))

unfoldable pub py_bool_impl : Answer Bool → Interp → Result Sexp × Interp
unfolding throw_error
py_bool_impl (returned b) s = (ok (logical no_attrs (pos (flag b) ∷ [])), s)
py_bool_impl (raised e) s = throw_error (raise e s)

-- `has` is what PyObject_HasAttrString finds, `is_method` is PyMethod_Check of the attribute.
unfoldable pub py_has_attr_impl : Bool → Bool → Bool
py_has_attr_impl null_xptr has = if null_xptr then false else has

unfoldable pub py_has_method : Bool → Bool → Bool → Interp → Sexp × Interp
py_has_method null_xptr has is_method s =
    let answer = λ (b : Bool). logical no_attrs (pos (flag b) ∷ []) in
    if null_xptr
    then (answer false, s)
    else if not has
    then (answer false, s)
    else (answer is_method, dec_ref (take_ref s))

-- The items of PyObject_Dir, each with whether it is encoded, and its bytes.
unfoldable pub names_loop : List (Bool × Answer String) → Interp → Result (List String) × Interp
unfolding as_std_string
names_loop [] s = (ok [], s)
names_loop ((encoded, bytes) ∷ items) s =
    let (r, s1) = as_std_string encoded bytes s in
    let rest = names_loop items s1 in
    (r >>= λ t. rest.0 >>= λ ts. ok (t ∷ ts), if is_ok r then rest.1 else s1)

unfoldable pub py_list_attributes_impl :
    Answer (List (Bool × Answer String)) → Interp → Result (List String) × Interp
unfolding names_loop throw_error
py_list_attributes_impl (raised e) s = throw_error (raise e s)
py_list_attributes_impl (returned items) s =
    let (r, s1) = names_loop items (take_ref s) in (r, dec_ref s1)

-- The text of the new object that PyObject_Str or PyObject_Repr gives.
unfoldable pub new_text : Answer (Answer String) → Interp → Result Sexp × Interp
unfolding as_std_string throw_error
new_text (raised e) s = throw_error (raise e s)
new_text (returned bytes) s =
    let (r, s1) = as_std_string true bytes (take_ref s) in
    (r >>= λ t. ok (character no_attrs (some t ∷ [])), dec_ref s1)

unfoldable pub py_repr : Bool → Answer (Answer String) → Interp → Result Sexp × Interp
unfolding new_text
py_repr null_xptr repr s =
    if null_xptr then (ok (character no_attrs (some "<pointer: 0x0>" ∷ [])), s) else new_text repr s

module _ (g : Globals) where
  unfoldable pub py_str_impl :
      Head → Answer String → Answer (Answer String) → Interp → Result Sexp × Interp
  unfolding as_std_string new_text
  py_str_impl x bytes str s =
      let (r, s1) = as_std_string (py_unicode_check x || is_py_array_scalar g x) bytes s in
      let other = new_text str s in
      elim (is_python_str g x) [
        | err e ↦ (err e, s)
        | ok true ↦ (r >>= λ t. ok (character no_attrs (some t ∷ [])), s1)
        | ok false ↦ other
      ]

  -- The parts that are given are new objects, released when the scope is left.
  unfoldable pub py_slice : Bool → Bool → Bool → Answer Head → Interp → Result PyRef × Interp
  unfolding throw_error own_ref
  py_slice start stop step answer s =
      let n = flag start + flag stop + flag step in
      let (out, s1) = new_ref answer (record s { taken = s.taken + n }) in
      let (thrown, s2) = throw_error s1 in
      let release = λ (t : Interp). record t { released = t.released + n } in
      elim out [
        | none ↦ (thrown, release s2)
        | some h ↦ let (r, s3) = own_ref g h false s1 in (r, release s3)
      ]
