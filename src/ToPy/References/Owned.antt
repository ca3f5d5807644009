-- ===== src/ToPy/References/Owned.antt =====
-- The conversion of R objects (python.cpp) gives back every reference but that to its result, and the
-- one case where it does not.
use pyreticulate.Base.{
  ℕ, ◌≡◌, refl, arith, ◌==◌, Bool, true, false, List, [], ◌∷◌, none, some, String, if◌then◌else◌,
  is_some,
}
use pyreticulate.Result.{Result, ok, err, python_exception, stop, ◌>>=◌, is_ok}
use pyreticulate.Sexp.{
  type_eq, type_of, strsxp, Sexp, null, logical, integer, numeric, cplx, character, raw, vec,
  closure, external_ptr, reference, other, Sexps, snil, scons,
}
use pyreticulate.PyObject.{PyObject, Globals}
use pyreticulate.Interp.{Interp, take_ref, dec_ref, Holds}
use pyreticulate.ToPy.{
  Make, Memory, r_to_py, numpy_memory, dim_of, xlength, vector_to_py, by_type_to_py, r_to_py_cpp,
  list_to_py, dict_to_py, object_bit, ref_get, inherits_builtin, as_python_str, function_name,
}
use pyreticulate.ToPy.References.{
  Rpytools, make_wrapper, with_rpytools, given_ref, vector_refs, base_refs, finish_refs, array_refs,
  function_refs, container_refs, type_refs, convert_refs, list_refs, dict_refs, r_to_py_refs,
}
use pyreticulate.ToPy.References.Leaves.{
  IsOwned, given_ref-IsOwned, vector_refs-IsOwned, attrs_refs-IsOwned, function_refs-IsOwned,
}
use pyreticulate.ToPy.References.Containers.{
  IsHandedOn, container_refs-IsOwned, item-IsOwned, list_step, dict_step,
}

mutual
  unfolding convert_refs r_to_py_cpp list_refs list_to_py dict_refs dict_to_py type_refs
      by_type_to_py

  pub convert_refs-IsOwned :
      (g : Globals) (m : Make) (p : Rpytools)
      → ((a b : PyObject) → is_some (m.set_base_object a b) ≡ true)
      → (x : Sexp) (convert : Bool) (s : Interp)
      → IsOwned 1 s
          (r_to_py_cpp g (with_rpytools p m) x convert)
          (convert_refs g (with_rpytools p m) p x convert s)
  convert_refs-IsOwned g m p sets null convert s = (refl, omega arith)
  convert_refs-IsOwned g m p sets (integer a v) convert s =
      let n = with_rpytools p m in
      attrs_refs-IsOwned g n sets a (integer a v) (ok (vector_to_py g n m.int_from_long v))
        (vector_refs g n m.int_from_long v) s (vector_refs-IsOwned g n m.int_from_long v s)
  convert_refs-IsOwned g m p sets (numeric a v) convert s =
      let n = with_rpytools p m in
      attrs_refs-IsOwned g n sets a (numeric a v) (ok (vector_to_py g n m.float_from_double v))
        (vector_refs g n m.float_from_double v) s (vector_refs-IsOwned g n m.float_from_double v s)
  convert_refs-IsOwned g m p sets (cplx a v) convert s =
      let n = with_rpytools p m in
      attrs_refs-IsOwned g n sets a (cplx a v) (ok (vector_to_py g n m.complex_from_doubles v))
        (vector_refs g n m.complex_from_doubles v) s
        (vector_refs-IsOwned g n m.complex_from_doubles v s)
  convert_refs-IsOwned g m p sets (logical a v) convert s =
      let n = with_rpytools p m in
      attrs_refs-IsOwned g n sets a (logical a v) (ok (vector_to_py g n m.bool_from_long v))
        (vector_refs g n m.bool_from_long v) s (vector_refs-IsOwned g n m.bool_from_long v s)
  convert_refs-IsOwned g m p sets (character a v) convert s =
      let n = with_rpytools p m in
      attrs_refs-IsOwned g n sets a (character a v)
        (ok (vector_to_py g n (λ t. as_python_str g n t false) v))
        (vector_refs g n (λ t. as_python_str g n t false) v) s
        (vector_refs-IsOwned g n (λ t. as_python_str g n t false) v s)
  convert_refs-IsOwned g m p sets (raw a v) convert s =
      let n = with_rpytools p m in
      attrs_refs-IsOwned g n sets a (raw a v) (ok (m.byte_array_from v))
        (given_ref (ok (m.byte_array_from v))) s (given_ref-IsOwned (ok (m.byte_array_from v)) s)
  convert_refs-IsOwned g m p sets (closure a i) convert s =
      let n = with_rpytools p m in
      attrs_refs-IsOwned g n sets a (closure a i)
        (make_wrapper p (m.capsule_new (closure a i)) (function_name g n a))
        (function_refs g n p a (closure a i)) s (function_refs-IsOwned g n p a (closure a i) s)
  convert_refs-IsOwned g m p sets (external_ptr a q) convert s =
      let n = with_rpytools p m in
      attrs_refs-IsOwned g n sets a (external_ptr a q)
        (if q == 0
          then err (stop "Invalid pointer")
          else ok (m.pointer_capsule q (external_ptr a q)))
        (given_ref (
          if q == 0
          then err (stop "Invalid pointer")
          else ok (m.pointer_capsule q (external_ptr a q))))
        s
        (given_ref-IsOwned
          (if q == 0
            then err (stop "Invalid pointer")
            else ok (m.pointer_capsule q (external_ptr a q)))
          s)
  convert_refs-IsOwned g m p sets (other a i) convert s =
      let n = with_rpytools p m in
      attrs_refs-IsOwned g n sets a (other a i) (ok (m.capsule_new (other a i)))
        (given_ref (ok (m.capsule_new (other a i)))) s
        (given_ref-IsOwned (ok (m.capsule_new (other a i))) s)
  convert_refs-IsOwned g m p sets (reference r) convert s =
      given_ref-IsOwned
        (if inherits_builtin r.classes
          then ref_get g (with_rpytools p m) r
          else ok (m.capsule_new (reference r)))
        s
  convert_refs-IsOwned g m p sets (vec a xs) convert s =
      let n = with_rpytools p m in
      let filled = λ (names : List String). dict_to_py g n xs names n.dict_new convert in
      let elements = λ (s0 : Interp). list_refs g n p xs convert s0 in
      let entries =
        λ (names : List String) (s0 : Interp). dict_refs g n p xs names n.dict_new convert s0 in
      attrs_refs-IsOwned g n sets a (vec a xs)
        (elim a.names as (λ o. Result PyObject) [
          | some names ↦ filled names
          | none ↦ list_to_py g n xs convert >>= λ is. ok (n.list_of is)
        ])
        (container_refs g n a elements entries) s
        (container_refs-IsOwned g n a (list_to_py g n xs convert) filled elements entries s
          (list_refs-IsHandedOn g m p sets xs convert (take_ref s))
          (λ names. dict_refs-IsHandedOn g m p sets xs names n.dict_new convert (take_ref s)))

  pub list_refs-IsHandedOn :
      (g : Globals) (m : Make) (p : Rpytools)
      → ((a b : PyObject) → is_some (m.set_base_object a b) ≡ true)
      → (xs : Sexps) (convert : Bool) (s : Interp)
      → IsHandedOn s
          (list_to_py g (with_rpytools p m) xs convert)
          (list_refs g (with_rpytools p m) p xs convert s)
  list_refs-IsHandedOn g m p sets snil convert s = (refl, omega arith)
  list_refs-IsHandedOn g m p sets (scons x xs) convert s =
      let n = with_rpytools p m in
      let own = convert_refs g n p x convert s in
      let v = if object_bit x then n.r_to_py_generic x convert else r_to_py_cpp g n x convert in
      let item = if object_bit x then given_ref (n.r_to_py_generic x convert) s else own in
      list_step s v item (list_to_py g n xs convert) (list_refs g n p xs convert (dec_ref item.1))
        (item-IsOwned g n x convert (r_to_py_cpp g n x convert) own s
          (convert_refs-IsOwned g m p sets x convert s))
        (list_refs-IsHandedOn g m p sets xs convert (dec_ref item.1))

  pub dict_refs-IsHandedOn :
      (g : Globals) (m : Make) (p : Rpytools)
      → ((a b : PyObject) → is_some (m.set_base_object a b) ≡ true)
      → (xs : Sexps) (names : List String) (dict : PyObject) (convert : Bool) (s : Interp)
      → IsHandedOn s
          (dict_to_py g (with_rpytools p m) xs names dict convert)
          (dict_refs g (with_rpytools p m) p xs names dict convert s)
  dict_refs-IsHandedOn g m p sets snil names dict convert s = (refl, omega arith)
  dict_refs-IsHandedOn g m p sets (scons x xs) [] dict convert s = (refl, omega arith)
  dict_refs-IsHandedOn g m p sets (scons x xs) (name ∷ names) dict convert s =
      let n = with_rpytools p m in
      let own = convert_refs g n p x convert s in
      let v = if object_bit x then n.r_to_py_generic x convert else r_to_py_cpp g n x convert in
      let item = if object_bit x then given_ref (n.r_to_py_generic x convert) s else own in
      dict_step s v item (n.dict_set_item_string dict name) (λ d. dict_to_py g n xs names d convert)
        (λ d. dict_refs g n p xs names d convert (dec_ref item.1))
        (item-IsOwned g n x convert (r_to_py_cpp g n x convert) own s
          (convert_refs-IsOwned g m p sets x convert s))
        (λ d. dict_refs-IsHandedOn g m p sets xs names d convert (dec_ref item.1))

-- Where the base object of an array can be set, the conversion of an R object gives what `r_to_py`
-- gives with the wrappers that rpytools makes; of the references that it has taken it keeps one, to its
-- result, and none if it throws.
pub r_to_py_refs-r_to_py :
    (g : Globals) (m : Make) (p : Rpytools) (x : Sexp) (convert : Bool) (s : Interp)
    → ((a b : PyObject) → is_some (m.set_base_object a b) ≡ true)
    → let r = r_to_py_refs g (with_rpytools p m) p x convert s in
      (r.0 ≡ r_to_py g (with_rpytools p m) x convert) × Holds (if is_ok r.0 then 1 else 0) s r.1
unfolding r_to_py_refs r_to_py
r_to_py_refs-r_to_py g m p x convert s sets =
    let n = with_rpytools p m in
    let (same, kept) =
      item-IsOwned g n x convert (r_to_py_cpp g n x convert) (convert_refs g n p x convert s) s
        (convert_refs-IsOwned g m p sets x convert s) in
    (same, rw same kept)

finish_refs-base_refs :
    (g : Globals) (m : Make) (x : Sexp) (array : PyObject) (s : Interp)
    → type_eq (type_of x) strsxp ≡ false
    → finish_refs g m x array s ≡ base_refs g m array (m.capsule_new x) s
unfolding finish_refs
finish_refs-base_refs g m (character a v) array s h = ground (arith, h)
finish_refs-base_refs g m x array s h = refl

-- Of an R object that is no character vector, an array that has been made and cannot be given its base
-- object is not released when the exception is thrown.
pub array_refs-not_released :
    (g : Globals) (m : Make) (x : Sexp) (t : ℕ × Memory × ℕ) (array : PyObject) (s : Interp)
    → type_eq (type_of x) strsxp ≡ false
    → numpy_memory g m x ≡ ok t
    → m.array_new (record {
      dims = elim (dim_of x) [ none ↦ xlength x ∷ [] | some ds ↦ ds ];
      typenum = t.0;
      memory = t.1;
      flags = t.2;
    })
      ≡ some array
    → m.has_set_base_object ≡ true
    → m.set_base_object array (m.capsule_new x) ≡ none
    → ((array_refs g m x s).0 ≡ err python_exception) × Holds 1 s (array_refs g m x s).1
unfolding array_refs base_refs
array_refs-not_released g m x t array s no_text made new modern fails =
    ground (arith, made, new, modern, fails, finish_refs-base_refs g m x array (take_ref s) no_text)
