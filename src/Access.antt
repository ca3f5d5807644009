-- ===== src/Access.antt =====
-- Access to Python objects (python.cpp): attributes, items, dictionaries and iterators, with the
-- error indicator and the references as state. What Python answers to a call is data: a value with
-- a new reference, or an exception. A reference that R's finalizer will give back counts as held by
-- the `PyObjectRef` that is returned; if `py_ref` throws, its object goes with the finalizer. An argument
-- that `with_arg` converts counts one reference if it is converted, and none if not; Access/Call and
-- the iteration count what a conversion takes as ToPy/References and ToR/Ledger do.
pub mod Ledger
pub mod Call
pub mod Run
pub mod Dict
pub mod Query
pub mod Dates
pub mod Modules
pub mod Statics
pub mod Equal
use pyreticulate.Base.{
  ℕ, ◌+◌, Bool, true, false, List, [], ◌∷◌, Option, none, some, ◌⊎◌, inl, inr, if◌then◌else◌,
  is_some,
}
use pyreticulate.Result.{Result, ok, err, python_exception, interrupted, stop, ◌>>=◌}
use pyreticulate.Sexp.{Sexp, PyRef}
use pyreticulate.PyObject.{Head, PyObject, head, Globals}
use pyreticulate.ClassNames.{py_ref}
use pyreticulate.ToR.Ledger.{to_r_ledger}
use pyreticulate.ToPy.{Make, r_to_py}
use pyreticulate.Interp.{Interp, fetch, restore, clear, raise, take_ref, dec_ref, counted}

pub data Answer (A : Type 0) : Type 0 where
  returned : A → Answer A
  raised : ℕ → Answer A

-- A call that returns a new reference, or NULL with the indicator set.
abbrev pub new_ref : {A : Type 0} → Answer A → Interp → Option A × Interp
new_ref (returned a) s = (some a, take_ref s)
new_ref (raised e) s = (none, raise e s)

-- A call that returns 0, or -1 with the indicator set.
abbrev pub status : Answer (Unit {0}) → Interp → Bool × Interp
status (returned u) s = (true, s)
status (raised e) s = (false, raise e s)

-- throw PythonException(py_fetch_error()): an interrupt that Python was told of goes first, and clears
-- the indicator; otherwise the indicator is taken over.
unfoldable pub throw_error : {A : Type 0} → Interp → Result A × Interp
throw_error s =
    if s.interrupted
    then (err interrupted, record s { error = none; interrupted = false })
    else elim s.error [
      | none ↦ (err (stop "Unknown Python error."), s)
      | some e ↦ (err python_exception, record s { error = s.left_by e })
    ]

-- `py_ref` of an object whose reference it takes over.
unfoldable pub own_ref : Globals → Head → Bool → Interp → Result PyRef × Interp
own_ref g h convert s = elim (py_ref g h convert []) [
  | err e ↦ (err e, dec_ref s)
  | ok r ↦ (ok r, s)
]

-- A reference, or the empty environment.
abbrev pub found : Result PyRef × Interp → Result (Option PyRef) × Interp
found (err e, s) = (err e, s)
found (ok r, s) = (ok (some r), s)

-- The converted argument of a call, released when the scope is left.
unfoldable pub with_arg :
    {A : Type 0} → Result PyObject → (Interp → Result A × Interp) → Interp → Result A × Interp
with_arg arg body s = elim arg [
  | err e ↦ (err e, s)
  | ok o ↦ let (r, s1) = body (take_ref s) in (r, dec_ref s1)
]

-- The value for an item, the state behind it, and the outcome for the items that follow.
abbrev pub and_rest :
    Result Sexp → Interp → Result (List Sexp) × Interp → Result (List Sexp) × Interp
and_rest (err e) s rest = (err e, s)
and_rest (ok v) s rest = (rest.0 >>= λ vs. ok (v ∷ vs), rest.1)

module _ (g : Globals) where
  -- What follows a look-up, with and without the guard of the indicator.
  unfoldable pub look_up : Answer Head → Bool → Bool → Interp → Result (Option PyRef) × Interp
  unfolding throw_error own_ref
  look_up answer convert true s =
      let (saved, s0) = fetch s in
      let (attr, s1) = new_ref answer s0 in
      let s2 = restore saved s1 in
      elim attr [ none ↦ (ok none, s2) | some h ↦ found (own_ref g h convert s2) ]
  look_up answer convert false s =
      let (attr, s1) = new_ref answer s in
      elim attr [ none ↦ throw_error s1 | some h ↦ found (own_ref g h convert s1) ]

  unfoldable pub py_get_attr_impl :
      Answer Head → Bool → Bool → Interp → Result (Option PyRef) × Interp
  unfolding look_up
  py_get_attr_impl answer convert silent s = look_up answer convert silent s

  module _ (m : Make) where
    unfoldable pub py_get_item_impl :
        Sexp → Answer Head → Bool → Bool → Interp → Result (Option PyRef) × Interp
    unfolding with_arg look_up
    py_get_item_impl key answer convert silent s =
        with_arg (r_to_py g m key convert) (look_up answer convert silent) s

    -- The check of a status.
    abbrev pub checked : Answer (Unit {0}) → Interp → Result (Unit {0}) × Interp
    checked answer s =
        let (fine, s1) = status answer s in if fine then (ok tt, s1) else throw_error s1

    unfoldable pub py_set_attr_impl :
        Sexp → Answer (Unit {0}) → Bool → Interp → Result (Unit {0}) × Interp
    unfolding with_arg throw_error
    py_set_attr_impl val answer convert s = with_arg (r_to_py g m val convert) (checked answer) s

    unfoldable pub py_set_item_impl :
        Sexp → Sexp → Answer (Unit {0}) → Bool → Interp → Result (Unit {0}) × Interp
    unfolding with_arg throw_error
    py_set_item_impl key val answer convert s =
        with_arg (r_to_py g m key convert)
          (λ s1. with_arg (r_to_py g m val convert) (checked answer) s1) s

    -- The status of PyDict_SetItem is not looked at.
    unfoldable pub py_dict_set_item :
        Bool → Sexp → Sexp → Answer (Unit {0}) → Bool → Interp → Result (Unit {0}) × Interp
    unfolding with_arg py_set_item_impl
    py_dict_set_item is_dict key val answer convert s =
        let generic = py_set_item_impl key val answer convert s in
        let direct =
          with_arg (r_to_py g m key convert)
            (λ s1. with_arg (r_to_py g m val convert) (λ s2. (ok tt, (status answer s2).1)) s1) s in
        if is_dict then direct else generic

  unfoldable pub py_del_attr_impl : Answer (Unit {0}) → Interp → Result (Unit {0}) × Interp
  unfolding throw_error
  py_del_attr_impl answer s =
      let (fine, s1) = status answer s in if fine then (ok tt, s1) else throw_error s1

module _ (g : Globals) (left_pending : PyObject → Option ℕ) where
  -- The value for the R function: converted, or a reference that R takes over. `left_pending` is what
  -- CPython leaves pending behind a conversion that goes on: the OverflowError of PyInt_AsLong.
  unfoldable pub iterated : PyObject → Bool → Interp → Result (Sexp ⊎ PyRef) × Interp
  unfolding own_ref
  iterated x true s =
      let (r, t) = to_r_ledger g x true s in
      let s1 = counted s t in
      (r >>= λ v. ok (inl v), elim (left_pending x) [ none ↦ s1 | some e ↦ raise e s1 ])
  iterated x false s = let (r, s1) = own_ref g (head x) false s in (r >>= λ v. ok (inr v), s1)

  -- The loop of `py_iterate` over the items; `final` is the exception that ends it, if one does.
  unfoldable pub iterate_loop :
      (Sexp ⊎ PyRef → Result Sexp)
      → List PyObject
      → Option ℕ
      → Bool
      → Interp
      → Result (List Sexp) × Interp
  unfolding iterated throw_error
  iterate_loop f [] none convert s = if is_some s.error then throw_error s else (ok [], s)
  iterate_loop f [] (some e) convert s = throw_error (raise e s)
  iterate_loop f (x ∷ xs) final convert s =
      let (param, s1) = iterated x convert (take_ref s) in
      let s2 = if convert then dec_ref s1 else s1 in
      let rest = iterate_loop f xs final convert s2 in and_rest (param >>= f) s2 rest

  unfoldable pub py_iterate :
      (Sexp ⊎ PyRef → Result Sexp)
      → Answer (List PyObject × Option ℕ)
      → Bool
      → Interp
      → Result (List Sexp) × Interp
  unfolding iterate_loop throw_error
  py_iterate f answer convert s =
      let (iterator, s1) = new_ref answer s in
      elim iterator [
        | none ↦ throw_error s1
        | some it ↦ let (r, s2) = iterate_loop f it.0 it.1 convert s1 in (r, dec_ref s2)
      ]
