-- ===== src/Access/Dict.antt =====
-- Dictionaries, tuples and iterators (python.cpp): `py_dict_impl`, `py_dict_get_item`, the lengths,
-- the keys as an object and as texts, `py_tuple` and `py_iter_next`.
pub mod Keys
pub mod Items
use pyreticulate.Base.{
  ℕ, ◌+◌, Bool, true, false, List, [], ◌∷◌, Option, none, some, ◌⊎◌, inl, inr, if◌then◌else◌, not,
  ◌||◌, ◌++◌, String, is_some,
}
use pyreticulate.Base.Int.{ℤ, pos, negsuc, to_int32}
use pyreticulate.Result.{Result, ok, err, stop, ◌>>=◌, is_ok}
use pyreticulate.Sexp.{Sexp, PyRef}
use pyreticulate.PyObject.{
  Head, PyObject, head, Globals, py_unicode_check, is_py_array_scalar, is_python_str,
}
use pyreticulate.ToR.{py_to_r}
use pyreticulate.ToPy.{Make, r_to_py}
use pyreticulate.Interp.{Interp, clear, raise, take_ref, dec_ref}
use pyreticulate.Access.{
  Answer, returned, raised, new_ref, status, throw_error, own_ref, found, with_arg, iterated,
  py_get_item_impl,
}

-- A key: what PyString_AsStringAndSize gives for it, or for its encoding, and PyObject_Str with the
-- text's own bytes.
pub record Key : Type 0 where
  pub key : Head
  pub bytes : Answer String
  pub str : Answer (Answer String)

-- `as_std_string`: an object that is to be encoded is encoded into a new object; the encoding, which
-- ignores errors, succeeds.
unfoldable pub as_std_string : Bool → Answer String → Interp → Result String × Interp
unfolding throw_error
as_std_string true (returned text) s = (ok text, dec_ref (take_ref s))
as_std_string true (raised e) s =
    let (thrown, s1) = throw_error (raise e (take_ref s)) in (thrown, dec_ref s1)
as_std_string false (returned text) s = (ok text, s)
as_std_string false (raised e) s = throw_error (raise e s)

-- PyObject_Size, or the size that CPython stores, as a C `int`; -1 where there is none.
abbrev pub sized : Answer ℕ → Interp → ℤ × Interp
sized (returned n) s = (to_int32 (pos n), s)
sized (raised e) s = (negsuc 0, raise e s)

unfoldable pub py_dict_length : Bool → ℕ → Answer ℕ → Interp → ℤ × Interp
py_dict_length is_dict dict_size object_size s =
    sized (if not is_dict then object_size else returned dict_size) s

unfoldable pub py_tuple_length : Bool → ℕ → Answer ℕ → Interp → ℤ × Interp
py_tuple_length is_tuple tuple_size object_size s =
    sized (if not is_tuple then object_size else returned tuple_size) s

-- `py_dict_get_keys_impl`: the answers of PyDict_Keys and of the method `keys`.
unfoldable pub py_dict_get_keys_impl :
    {A : Type 0} → Answer A → Answer A → Interp → Result A × Interp
unfolding throw_error
py_dict_get_keys_impl keys method s =
    let (first, s1) = new_ref keys s in
    let (second, s2) = new_ref method (clear s1) in
    elim first [
      | some k ↦ (ok k, s1)
      | none ↦ elim second [ some k ↦ (ok k, s2) | none ↦ throw_error s2 ]
    ]

-- The body of the loop of `py_dict_impl` with the converted key and value, which are released when its
-- scope is left: the entry that is added, if one is. The status of PyDict_SetItem is not looked at.
unfoldable pub store_item :
    (PyObject → PyObject → Answer (Unit {0}))
    → Result PyObject
    → Result PyObject
    → Interp
    → Result (List (PyObject × PyObject)) × Interp
store_item store (err e) val s = (err e, s)
store_item store (ok k) (err e) s = (err e, dec_ref (take_ref s))
store_item store (ok k) (ok v) s =
    let (stored, s1) = status (store k v) (take_ref (take_ref s)) in
    (ok (if stored then (k, v) ∷ [] else []), dec_ref (dec_ref s1))

module _ (g : Globals) where
  unfoldable pub py_dict_get_keys :
      Answer Head → Answer Head → Bool → Interp → Result PyRef × Interp
  unfolding py_dict_get_keys_impl own_ref
  py_dict_get_keys keys method convert s =
      let (r, s1) = py_dict_get_keys_impl keys method s in
      elim r [ err e ↦ (err e, s1) | ok h ↦ own_ref g h convert s1 ]

  -- The text of a key: its own, or that of PyObject_Str.
  unfoldable pub key_text : Key → Interp → Result String × Interp
  unfolding as_std_string throw_error
  key_text k s =
      let encoded = py_unicode_check k.key || is_py_array_scalar g k.key in
      let own = as_std_string encoded k.bytes s in
      let (str, s1) = new_ref k.str s in
      let thrown = throw_error {A = String} s1 in
      elim (is_python_str g k.key) [
        | err e ↦ (err e, s)
        | ok true ↦ own
        | ok false ↦ elim str [
          | none ↦ thrown
          | some text ↦ let (r, s2) = as_std_string true text s1 in (r, dec_ref s2)
        ]
      ]

  -- The loop over the keys; `final` is the exception that ends it, if one does.
  unfoldable pub keys_loop : List Key → Option ℕ → Interp → Result (List String) × Interp
  unfolding key_text throw_error
  keys_loop [] none s = (ok [], s)
  keys_loop [] (some e) s = throw_error (raise e s)
  keys_loop (k ∷ ks) final s =
      let (r, s1) = key_text k (take_ref s) in
      let rest = keys_loop ks final (dec_ref s1) in
      (r >>= λ t. rest.0 >>= λ ts. ok (t ∷ ts), if is_ok r then rest.1 else dec_ref s1)

  unfoldable pub py_dict_get_keys_as_str :
      Answer (Unit {0})
      → Answer (Unit {0})
      → Answer (List Key × Option ℕ)
      → Interp
      → Result (List String) × Interp
  unfolding py_dict_get_keys_impl keys_loop throw_error
  py_dict_get_keys_as_str keys method iterator s =
      let (r, s1) = py_dict_get_keys_impl keys method s in
      let (it, s2) = new_ref iterator s1 in
      let (thrown, s3) = throw_error s2 in
      elim r [
        | err e ↦ (err e, s1)
        | ok u ↦ elim it [
          | none ↦ (thrown, dec_ref s3)
          | some ks ↦ let (ts, s4) = keys_loop ks.0 ks.1 s2 in (ts, dec_ref (dec_ref s4))
        ]
      ]

  -- What PyIter_Next gives: an item, the end, or an exception. The result is `completed`, the item's
  -- value, or a reference to it.
  unfoldable pub py_iter_next :
      (PyObject → Option ℕ)
      → Answer (Option PyObject)
      → Bool
      → Interp
      → Result (Option (Sexp ⊎ PyRef)) × Interp
  unfolding throw_error iterated
  py_iter_next left_pending (raised e) convert s = throw_error (raise e s)
  py_iter_next left_pending (returned none) convert s =
      if is_some s.error then throw_error s else (ok none, s)
  py_iter_next left_pending (returned (some x)) convert s =
      let (r, s1) = iterated g left_pending x convert (take_ref s) in
      (r >>= λ v. ok (some v), if convert then dec_ref s1 else s1)

  module _ (m : Make) where
    -- The item that PyDict_GetItem finds, `none` for NULL, and the object None.
    unfoldable pub py_dict_get_item :
        Bool
        → Sexp
        → Option Head
        → Head
        → Answer Head
        → Bool
        → Interp
        → Result (Option PyRef) × Interp
    unfolding py_get_item_impl with_arg own_ref
    py_dict_get_item is_dict key item py_none answer convert s =
        let generic = py_get_item_impl g m key answer convert false s in
        let direct =
          with_arg (r_to_py g m key convert)
            (λ s1. elim item [
              | none ↦ found (own_ref g py_none false (take_ref s1))
              | some h ↦ found (own_ref g h convert (take_ref s1))
            ])
            s in
        if not is_dict then generic else direct

    -- The loop of `py_dict_impl`: `store` is what PyDict_SetItem answers.
    unfoldable pub dict_loop :
        List Sexp
        → List Sexp
        → (PyObject → PyObject → Answer (Unit {0}))
        → Bool
        → Interp
        → Result (List (PyObject × PyObject)) × Interp
    unfolding store_item
    dict_loop [] items store convert s = (ok [], s)
    dict_loop (k ∷ ks) [] store convert s =
        store_item store (r_to_py g m k convert) (err (stop "Index out of bounds")) s
    dict_loop (k ∷ ks) (x ∷ xs) store convert s =
        let (r, s1) = store_item store (r_to_py g m k convert) (r_to_py g m x convert) s in
        let rest = dict_loop ks xs store convert s1 in
        (r >>= λ e. rest.0 >>= λ es. ok (e ++ es), if is_ok r then rest.1 else s1)

    -- The new dictionary is `dictionary`.
    unfoldable pub py_dict_impl :
        Head
        → List Sexp
        → List Sexp
        → (PyObject → PyObject → Answer (Unit {0}))
        → Bool
        → Interp
        → Result PyRef × Interp
    unfolding dict_loop own_ref
    py_dict_impl dictionary keys items store convert s =
        let (r, s1) = dict_loop keys items store convert (take_ref s) in
        elim r [ err e ↦ (err e, s1) | ok es ↦ own_ref g dictionary convert s1 ]

    -- The loop of `py_tuple`: the tuple takes over the reference to each item. PyTuple_SetItem of a new
    -- tuple succeeds below its size.
    unfoldable pub tuple_loop : List Sexp → Bool → Interp → Result (List PyObject) × Interp
    tuple_loop [] convert s = (ok [], s)
    tuple_loop (x ∷ xs) convert s =
        let rest = tuple_loop xs convert (take_ref s) in
        elim (r_to_py g m x convert) [
          | err e ↦ (err e, s)
          | ok o ↦ (rest.0 >>= λ os. ok (o ∷ os), rest.1)
        ]

    unfoldable pub py_tuple : Head → List Sexp → Bool → Interp → Result PyRef × Interp
    unfolding tuple_loop own_ref
    py_tuple tuple items convert s =
        let (r, s1) = tuple_loop items convert (take_ref s) in
        elim r [ err e ↦ (err e, s1) | ok os ↦ own_ref g tuple convert s1 ]
