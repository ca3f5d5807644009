-- ===== src/ToPy/References.antt =====
-- The references that `r_to_py_cpp` and `r_to_py_numpy` (python.cpp) take and hand on. An element that
-- a list or an array takes over counts as given back, and so does the capsule that becomes the base of
-- an array, whether or not PyArray_SetBaseObject succeeds. The error indicator is left aside.
pub mod Leaves
pub mod Containers
pub mod Owned
use pyreticulate.Base.{
  ℕ, zero, suc, ◌==◌, not, Bool, true, false, List, [], ◌∷◌, Option, none, some, String,
  if◌then◌else◌, length,
}
use pyreticulate.Result.{Result, ok, err, python_exception, stop, ◌>>=◌}
use pyreticulate.Sexp.{
  Attrs, Sexp, null, logical, integer, numeric, cplx, character, raw, vec, closure, external_ptr,
  reference, other, Sexps, snil, scons, PyRef,
}
use pyreticulate.PyObject.{PyObject, Items, nil, cons, Globals}
use pyreticulate.Interp.{Interp, take_ref, dec_ref}
use pyreticulate.ToPy.{
  Make, NewArray, items_of, as_python_str, numpy_memory, dim_of, xlength, ref_get, inherits_builtin,
  function_name, object_bit,
}

-- The module rpytools.call, as far as it can be imported: what the look-up of its function gives, and
-- what a call of it gives.
pub record Rpytools : Type 0 where
  pub imports : Bool
  pub has_function : Bool
  pub call_function : PyObject → PyObject → Option PyObject

unfoldable pub make_wrapper : Rpytools → PyObject → PyObject → Result PyObject
make_wrapper p capsule name =
    if not p.imports
    then err python_exception
    else if not p.has_function
    then err python_exception
    else elim (p.call_function capsule name) [ none ↦ err python_exception | some o ↦ ok o ]

-- The wrapper is what the module makes.
abbrev pub with_rpytools : Rpytools → Make → Make
with_rpytools p m = record m {
  make_python_function = λ capsule convert name. make_wrapper p capsule name;
}

-- A call that gives a new reference if it returns.
abbrev pub given_ref : Result PyObject → Interp → Result PyObject × Interp
given_ref (err e) s = (err e, s)
given_ref (ok o) s = (ok o, take_ref s)

-- So many new references that a container takes over.
abbrev pub stolen : ℕ → Interp → Interp
stolen zero s = s
stolen (suc n) s = stolen n (dec_ref (take_ref s))

module _ (g : Globals) (m : Make) where
  unfoldable pub vector_refs {ℓ} :
      {A : Type ℓ} → (A → PyObject) → List A → Interp → Result PyObject × Interp
  vector_refs f [] s = (ok (m.list_of nil), take_ref s)
  vector_refs f (v ∷ []) s = (ok (f v), take_ref s)
  vector_refs f (v ∷ w ∷ vs) s =
      (ok (m.list_of (items_of g m f (v ∷ w ∷ vs))), stolen (length (v ∷ w ∷ vs)) (take_ref s))

  -- The base object that keeps the memory: if it cannot be set, nobody releases the array.
  unfoldable pub base_refs : PyObject → PyObject → Interp → Result PyObject × Interp
  base_refs array capsule s =
      let s1 = dec_ref (take_ref s) in
      if m.has_set_base_object
      then elim (m.set_base_object array capsule) [
        | none ↦ (err python_exception, s1)
        | some o ↦ (ok o, s1)
      ]
      else (ok (m.assign_base array capsule), s1)

  -- The elements of a character array, or the base object of another.
  unfoldable pub finish_refs : Sexp → PyObject → Interp → Result PyObject × Interp
  unfolding base_refs
  finish_refs (character a v) array s = (
    ok (m.array_set_objects array (items_of g m (λ t. as_python_str g m t true) v)),
    stolen (length v) s,
  )
  finish_refs x array s = base_refs array (m.capsule_new x) s

  unfoldable pub array_refs : Sexp → Interp → Result PyObject × Interp
  unfolding finish_refs
  array_refs x s =
      let dims : List ℕ = elim (dim_of x) [ none ↦ xlength x ∷ [] | some ds ↦ ds ] in
      elim (numpy_memory g m x) [
        | err e ↦ (err e, s)
        | ok t ↦
            let new : NewArray = record { dims = dims; typenum = t.0; memory = t.1; flags = t.2 } in
            elim (m.array_new new) [
              | none ↦ (err python_exception, s)
              | some array ↦ finish_refs x array (take_ref s)
            ]
      ]

  unfoldable pub attrs_refs :
      Attrs → Sexp → (Interp → Result PyObject × Interp) → Interp → Result PyObject × Interp
  unfolding array_refs
  attrs_refs a x by_type s =
      let passed = given_ref (m.as_reference x >>= λ r. ref_get g m r) s in
      let array =
        if g.have_numpy
        then array_refs x s
        else (err (stop "Required version of NumPy not available"), s) in
      elim a.py_object [
        | some r ↦ given_ref (ref_get g m r) s
        | none ↦
            if inherits_builtin a.classes
            then passed
            else elim a.dim [ none ↦ by_type s | some ds ↦ array ]
      ]

  -- The wrapper of an R function: the capsule and the name are released when the scope is left, and so
  -- are the module and its function once they are there.
  unfoldable pub function_refs : Rpytools → Attrs → Sexp → Interp → Result PyObject × Interp
  function_refs p a x s =
      let s1 = take_ref (take_ref s) in
      let s2 = take_ref s1 in
      let s3 = take_ref s2 in
      if not p.imports
      then (err python_exception, dec_ref (dec_ref s1))
      else if not p.has_function
      then (err python_exception, dec_ref (dec_ref (dec_ref s2)))
      else elim (p.call_function (m.capsule_new x) (function_name g m a)) [
        | none ↦ (err python_exception, dec_ref (dec_ref (dec_ref (dec_ref s3))))
        | some o ↦ (ok o, dec_ref (dec_ref (dec_ref (dec_ref (take_ref s3)))))
      ]

  -- The dictionary, or the list, that is released if it cannot be filled.
  abbrev pub filled_or_released : Result PyObject × Interp → Result PyObject × Interp
  filled_or_released (err e, s) = (err e, dec_ref s)
  filled_or_released (ok o, s) = (ok o, s)

  abbrev pub as_list : Result Items × Interp → Result PyObject × Interp
  as_list (err e, s) = (err e, s)
  as_list (ok items, s) = (ok (m.list_of items), s)

  unfoldable pub container_refs :
      Attrs
      → (Interp → Result Items × Interp)
      → (List String → Interp → Result PyObject × Interp)
      → Interp
      → Result PyObject × Interp
  container_refs a elements entries s = elim a.names [
    | some names ↦ filled_or_released (entries names (take_ref s))
    | none ↦ filled_or_released (as_list (elements (take_ref s)))
  ]

  unfoldable pub type_refs :
      Rpytools
      → Sexp
      → (Interp → Result Items × Interp)
      → (List String → Interp → Result PyObject × Interp)
      → Interp
      → Result PyObject × Interp
  unfolding attrs_refs vector_refs function_refs container_refs
  type_refs p null elements entries s = given_ref (ok m.none_object) s
  type_refs p (integer a v) elements entries s =
      attrs_refs a (integer a v) (vector_refs m.int_from_long v) s
  type_refs p (numeric a v) elements entries s =
      attrs_refs a (numeric a v) (vector_refs m.float_from_double v) s
  type_refs p (cplx a v) elements entries s =
      attrs_refs a (cplx a v) (vector_refs m.complex_from_doubles v) s
  type_refs p (logical a v) elements entries s =
      attrs_refs a (logical a v) (vector_refs m.bool_from_long v) s
  type_refs p (character a v) elements entries s =
      attrs_refs a (character a v) (vector_refs (λ t. as_python_str g m t false) v) s
  type_refs p (raw a v) elements entries s =
      attrs_refs a (raw a v) (given_ref (ok (m.byte_array_from v))) s
  type_refs p (closure a i) elements entries s =
      attrs_refs a (closure a i) (function_refs p a (closure a i)) s
  type_refs p (external_ptr a q) elements entries s =
      attrs_refs a (external_ptr a q)
        (given_ref (
          if q == 0
          then err (stop "Invalid pointer")
          else ok (m.pointer_capsule q (external_ptr a q))))
        s
  type_refs p (reference r) elements entries s =
      given_ref
        (if inherits_builtin r.classes then ref_get g m r else ok (m.capsule_new (reference r))) s
  type_refs p (other a i) elements entries s =
      attrs_refs a (other a i) (given_ref (ok (m.capsule_new (other a i)))) s
  type_refs p (vec a xs) elements entries s =
      attrs_refs a (vec a xs) (container_refs a elements entries) s

unfoldable mutual
  unfolding type_refs

  pub convert_refs : Globals → Make → Rpytools → Sexp → Bool → Interp → Result PyObject × Interp
  convert_refs g m p (vec a xs) convert s =
      let elements = λ (s0 : Interp). list_refs g m p xs convert s0 in
      let entries =
        λ (names : List String) (s0 : Interp). dict_refs g m p xs names m.dict_new convert s0 in
      type_refs g m p (vec a xs) elements entries s
  convert_refs g m p x convert s =
      type_refs g m p x (λ s0. (ok nil, s0)) (λ names s0. (ok m.dict_new, s0)) s

  -- Each item's reference goes to the list.
  pub list_refs : Globals → Make → Rpytools → Sexps → Bool → Interp → Result Items × Interp
  list_refs g m p snil convert s = (ok nil, s)
  list_refs g m p (scons x xs) convert s =
      let own = convert_refs g m p x convert s in
      let item = if object_bit x then given_ref (m.r_to_py_generic x convert) s else own in
      let rest = list_refs g m p xs convert (dec_ref item.1) in
      elim item.0 [ err e ↦ (err e, item.1) | ok i ↦ (rest.0 >>= λ is. ok (cons i is), rest.1) ]

  -- Each item is released when its round is over.
  pub dict_refs :
      Globals
      → Make
      → Rpytools
      → Sexps
      → List String
      → PyObject
      → Bool
      → Interp
      → Result PyObject × Interp
  dict_refs g m p snil names dict convert s = (ok dict, s)
  dict_refs g m p (scons x xs) [] dict convert s = (ok dict, s)
  dict_refs g m p (scons x xs) (name ∷ names) dict convert s =
      let own = convert_refs g m p x convert s in
      let item = if object_bit x then given_ref (m.r_to_py_generic x convert) s else own in
      let rest = λ (d : PyObject). dict_refs g m p xs names d convert (dec_ref item.1) in
      elim item.0 [
        | err e ↦ (err e, item.1)
        | ok i ↦ elim (m.dict_set_item_string dict name i) [
          | none ↦ (err python_exception, dec_ref item.1)
          | some d ↦ rest d
        ]
      ]

-- `r_to_py`: the generic's result is R's, and a reference of one's own is taken to its object.
unfoldable pub r_to_py_refs :
    Globals → Make → Rpytools → Sexp → Bool → Interp → Result PyObject × Interp
unfolding convert_refs
r_to_py_refs g m p x convert s =
    if object_bit x
    then given_ref (m.r_to_py_generic x convert) s
    else convert_refs g m p x convert s
