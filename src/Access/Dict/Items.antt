-- ===== src/Access/Dict/Items.antt =====
-- Dictionaries and tuples that are built, and iteration by single steps (`py_dict_impl`, `py_tuple`
-- and `py_iter_next` of python.cpp).
use pyreticulate.Base.{
  ℕ, ◌+◌, ◌≡◌, refl, Bool, true, List, [], ◌∷◌, Option, none, some, arith, length, ◌⊎◌,
}
use pyreticulate.Result.{Result, ok, err, stop, is_ok}
use pyreticulate.Sexp.{Sexp, PyRef}
use pyreticulate.PyObject.{Head, PyObject, Globals}
use pyreticulate.ClassNames.{py_ref}
use pyreticulate.ToPy.{Make, r_to_py}
use pyreticulate.Interp.{Interp, take_ref, Holds}
use pyreticulate.Access.{Answer, returned, raised, status, and_rest}
use pyreticulate.Access.Ledger.{is_returned}
use pyreticulate.Access.Dict.{
  store_item, dict_loop, py_dict_impl, tuple_loop, py_tuple, py_iter_next,
}

status_lem :
    (a : Answer (Unit {0})) (s : Interp)
    → let r = (status a s).1 in
      (r.taken ≡ s.taken) × (r.released ≡ s.released) × (is_returned a ≡ true → r.error ≡ s.error)
status_lem (returned u) s = (refl, refl, λ fine. refl)
status_lem (raised e) s = (refl, refl, λ fine. absurd (ground (arith, fine)))

store_item-Holds :
    (store : PyObject → PyObject → Answer (Unit {0})) (key val : Result PyObject) (s : Interp)
    → let r = store_item store key val s in
      Holds 0 s r.1 × (((k v : PyObject) → is_returned (store k v) ≡ true) → r.1.error ≡ s.error)
unfolding store_item
store_item-Holds store (err e) val s = (omega arith, λ fine. refl)
store_item-Holds store (ok k) (err e) s = (omega arith, λ fine. refl)
store_item-Holds store (ok k) (ok v) s =
    let (same_taken, same_released, same_error) = status_lem (store k v) (take_ref (take_ref s)) in
    (omega (arith, same_taken, same_released), λ fine. same_error (fine k v))

dict_loop-Holds :
    (g : Globals) (m : Make) (keys items : List Sexp)
    (store : PyObject → PyObject → Answer (Unit {0})) (convert : Bool) (s : Interp)
    → Holds 0 s (dict_loop g m keys items store convert s).1
unfolding dict_loop
dict_loop-Holds g m [] items store convert s = omega arith
dict_loop-Holds g m (k ∷ ks) [] store convert s =
    (store_item-Holds store (r_to_py g m k convert) (err (stop "Index out of bounds")) s).0
dict_loop-Holds g m (k ∷ ks) (x ∷ xs) store convert s =
    let key = r_to_py g m k convert in
    let val = r_to_py g m x convert in
    let item = store_item-Holds store key val s in
    ground (arith, item.0, dict_loop-Holds g m ks xs store convert (store_item store key val s).1)

dict_loop-error :
    (g : Globals) (m : Make) (keys items : List Sexp)
    (store : PyObject → PyObject → Answer (Unit {0})) (convert : Bool) (s : Interp)
    → ((k v : PyObject) → is_returned (store k v) ≡ true)
    → (dict_loop g m keys items store convert s).1.error ≡ s.error
unfolding dict_loop
dict_loop-error g m [] items store convert s fine = refl
dict_loop-error g m (k ∷ ks) [] store convert s fine =
    (store_item-Holds store (r_to_py g m k convert) (err (stop "Index out of bounds")) s).1 fine
dict_loop-error g m (k ∷ ks) (x ∷ xs) store convert s fine =
    let key = r_to_py g m k convert in
    let val = r_to_py g m x convert in
    let item = (store_item-Holds store key val s).1 fine in
    ground
      (arith, item, dict_loop-error g m ks xs store convert (store_item store key val s).1 fine)

-- The building of a dictionary takes one reference that it keeps, that to the dictionary, if `py_ref`
-- accepts it: also where a key or a value cannot be converted, or a value is missing, so that no
-- result carries the reference. Every other reference is given back.
pub py_dict_impl-Holds :
    (g : Globals) (m : Make) (dictionary : Head) (keys items : List Sexp)
    (store : PyObject → PyObject → Answer (Unit {0})) (convert : Bool) (s : Interp)
    → is_ok (py_ref g dictionary convert []) ≡ true
    → Holds 1 s (py_dict_impl g m dictionary keys items store convert s).1
unfolding py_dict_impl
py_dict_impl-Holds g m dictionary keys items store convert s accepted =
    ground (arith, dict_loop-Holds g m keys items store convert (take_ref s), accepted)

-- If every key has a hash, the building of a dictionary leaves the error indicator as it was.
pub py_dict_impl-error :
    (g : Globals) (m : Make) (dictionary : Head) (keys items : List Sexp)
    (store : PyObject → PyObject → Answer (Unit {0})) (convert : Bool) (s : Interp)
    → is_ok (py_ref g dictionary convert []) ≡ true
    → ((k v : PyObject) → is_returned (store k v) ≡ true)
    → (py_dict_impl g m dictionary keys items store convert s).1.error ≡ s.error
unfolding py_dict_impl
py_dict_impl-error g m dictionary keys items store convert s accepted fine =
    ground (arith, dict_loop-error g m keys items store convert (take_ref s) fine, accepted)

tuple_loop_lem :
    (g : Globals) (m : Make) (items : List Sexp) (convert : Bool) (s : Interp)
    → let r = tuple_loop g m items convert s in
      (r.1.released ≡ s.released)
      × (r.1.error ≡ s.error)
      × (is_ok r.0 ≡ true → r.1.taken ≡ s.taken + length items)
unfolding tuple_loop
tuple_loop_lem g m [] convert s = ground arith
tuple_loop_lem g m (x ∷ xs) convert s = ground (arith, tuple_loop_lem g m xs convert (take_ref s))

-- The building of a tuple, if `py_ref` accepts it, gives back no reference, and leaves the error
-- indicator as it was. If it succeeds, it has taken one reference for the tuple, and one for each
-- item, which the tuple takes over; if an item cannot be converted, those that it has taken for the
-- tuple and the items before are kept, though no result carries them.
pub py_tuple_lem :
    (g : Globals) (m : Make) (tuple : Head) (items : List Sexp) (convert : Bool) (s : Interp)
    → is_ok (py_ref g tuple convert []) ≡ true
    → let r = py_tuple g m tuple items convert s in
      (r.1.released ≡ s.released)
      × (r.1.error ≡ s.error)
      × (is_ok r.0 ≡ true → r.1.taken ≡ s.taken + (length items + 1))
unfolding py_tuple
py_tuple_lem g m tuple items convert s accepted =
    ground (arith, tuple_loop_lem g m items convert (take_ref s), accepted)

-- A client that calls `py_iter_next` until it gives `completed`, and its function on each value.
abbrev pub step_result :
    (Sexp ⊎ PyRef → Result Sexp)
    → Result (Option (Sexp ⊎ PyRef))
    → Result (List Sexp) × Interp
    → Interp
    → Result (List Sexp) × Interp
step_result f (err e) rest s = (err e, s)
step_result f (ok none) rest s = (ok [], s)
step_result f (ok (some v)) rest s = and_rest (f v) s rest

module _ (g : Globals) (left_pending : PyObject → Option ℕ) (f : Sexp ⊎ PyRef → Result Sexp)
    (convert : Bool) where
  unfoldable pub next_until_completed :
      List PyObject → Option ℕ → Interp → Result (List Sexp) × Interp
  next_until_completed [] none s =
      let (r, s1) = py_iter_next g left_pending (returned none) convert s in
      step_result f r (ok [], s1) s1
  next_until_completed [] (some e) s =
      let (r, s1) = py_iter_next g left_pending (raised e) convert s in
      step_result f r (ok [], s1) s1
  next_until_completed (x ∷ xs) final s =
      let (r, s1) = py_iter_next g left_pending (returned (some x)) convert s in
      step_result f r (next_until_completed xs final s1) s1
