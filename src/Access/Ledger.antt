-- ===== src/Access/Ledger.antt =====
-- The references and the error indicator that the access to objects (python.cpp) leaves.
use pyreticulate.Base.{
  ℕ, ◌+◌, ◌≡◌, Bool, true, false, not, ◌&&◌, ◌||◌, List, [], ◌∷◌, Option, none, some, ◌⊎◌, arith,
  length, suc, if◌then◌else◌, all_of,
}
use pyreticulate.Result.{Result, ok, err, ◌>>=◌, >>=-eq-ok}
use pyreticulate.Sexp.{Sexp, PyRef}
use pyreticulate.PyObject.{Head, PyObject, Globals}
use pyreticulate.ToR.Ledger.{to_r_ledger}
use pyreticulate.ToR.Ledger.Whole.{all_plain, to_r_ledger-py_to_r}
use pyreticulate.ToPy.{Make, r_to_py}
use pyreticulate.Interp.{IsClean, none_left, counted, Interp, Holds, take_ref, dec_ref}
use pyreticulate.Access.{
  Answer, returned, raised, py_get_attr_impl, py_get_item_impl, py_set_item_impl, py_dict_set_item,
  iterated, iterate_loop, and_rest, py_iterate,
}

-- The references in a result.
abbrev pub held : Result (Option PyRef) → ℕ
held (ok (some r)) = 1
held _ = 0

-- The indicator behind a call whose exception is thrown on.
abbrev pub error_behind : {A : Type 0} → Answer A → Interp → Option ℕ
error_behind (returned a) s = s.error
error_behind (raised e) s = none

abbrev pub succeeds : {A : Type 0} → Result A → Bool
succeeds (ok a) = true
succeeds (err e) = false

abbrev pub is_returned : {A : Type 0} → Answer A → Bool
is_returned (returned a) = true
is_returned (raised e) = false

-- With exceptions whose fetching leaves none pending, the look-up of an attribute gives back every reference but the one that its result holds. With
-- `silent` it leaves the error indicator as it was, on every path; without, an exception of the
-- look-up is thrown on and no longer pending.
pub py_get_attr_impl_lem :
    (g : Globals) (answer : Answer Head) (convert silent : Bool) (s : Interp)
    → s.left_by ≡ none_left
    → let r = py_get_attr_impl g answer convert silent s in
      Holds (held r.0) s r.1 × (r.1.error ≡ (if silent then s.error else error_behind answer s))
unfolding py_get_attr_impl
py_get_attr_impl_lem g answer convert true s quiet = ground arith
py_get_attr_impl_lem g answer convert false s quiet = ground arith

-- With exceptions whose fetching leaves none pending, the look-up of an item gives back every reference, that to the converted key included, but the one
-- that its result holds. If the key can be converted, the error indicator is as it was with `silent`,
-- and without, an exception of the look-up is thrown on and no longer pending; if the key cannot be
-- converted, the indicator is as it was.
pub py_get_item_impl_lem :
    (g : Globals) (m : Make) (key : Sexp) (answer : Answer Head) (convert silent : Bool)
    (s : Interp)
    → s.left_by ≡ none_left
    → let r = py_get_item_impl g m key answer convert silent s in
      Holds (held r.0) s r.1
      × (r.1.error ≡ (
          if silent || not (succeeds (r_to_py g m key convert))
          then s.error
          else error_behind answer s))
unfolding py_get_item_impl
py_get_item_impl_lem g m key answer convert true s quiet = ground arith
py_get_item_impl_lem g m key answer convert false s quiet = ground arith

-- The assignment of an item gives back every reference that it takes, on every path. It succeeds
-- exactly if the key and the value can be converted and Python does not raise; a clean state, in which no
-- exception is pending and the fetching of one leaves none, is clean behind it.
pub py_set_item_impl_lem :
    (g : Globals) (m : Make) (key val : Sexp) (answer : Answer (Unit {0})) (convert : Bool)
    (s : Interp)
    → IsClean s
    → let r = py_set_item_impl g m key val answer convert s in
      Holds 0 s r.1
      × (succeeds r.0 ≡ (
          succeeds (r_to_py g m key convert)
          && (succeeds (r_to_py g m val convert) && is_returned answer)))
      × IsClean r.1
unfolding py_set_item_impl
py_set_item_impl_lem g m key val answer convert s clean = ground arith

-- Where the object is a dictionary, an exception of Python, as for a key that has no hash, is not
-- thrown: the call returns as if it had stored the value, and the exception stays pending.
pub py_dict_set_item-raised :
    (g : Globals) (m : Make) (key val : Sexp) (e : ℕ) (convert : Bool) (s : Interp)
    → succeeds (r_to_py g m key convert) ≡ true
    → succeeds (r_to_py g m val convert) ≡ true
    → let r = py_dict_set_item g m true key val (raised e) convert s in
      (r.0 ≡ ok tt) × (r.1.error ≡ some e) × Holds 0 s r.1
unfolding py_dict_set_item
py_dict_set_item-raised g m key val e convert s k v = ground arith

and_rest-Holds :
    (v : Result Sexp) (s : Interp) (rest : Result (List Sexp) × Interp)
    → IsClean s
    → Holds 0 s rest.1 × IsClean rest.1
    → Holds 0 s (and_rest v s rest).1 × IsClean (and_rest v s rest).1
and_rest-Holds (err e) s rest clean h = (omega arith, clean)
and_rest-Holds (ok v) s rest clean h = h

and_rest-length :
    (v : Result Sexp) (s : Interp) (rest : Result (List Sexp) × Interp) (vs : List Sexp)
    → (and_rest v s rest).0 ≡ ok vs
    → (us : List Sexp) × (rest.0 ≡ ok us) × (length vs ≡ suc (length us))
and_rest-length (err e) s rest vs h = ground arith
and_rest-length (ok v) s rest vs h = let (us, e, h1) = >>=-eq-ok rest.0 _ h in (us, e, ground arith)

iterate_loop-Holds :
    (g : Globals) (pend : PyObject → Option ℕ) (f : Sexp ⊎ PyRef → Result Sexp) (xs : List PyObject)
    (final : Option ℕ) (s : Interp)
    → all_of (all_plain g) xs ≡ true
    → ((x : PyObject) → pend x ≡ none)
    → IsClean s
    → let r = iterate_loop g pend f xs final true s in Holds 0 s r.1 × IsClean r.1
unfolding iterate_loop
iterate_loop-Holds g pend f [] none s plain fits clean = ground (arith, clean)
iterate_loop-Holds g pend f [] (some e) s plain fits clean = ground (arith, clean)
iterate_loop-Holds g pend f (x ∷ xs) final s plain fits clean =
    let (r, t) = to_r_ledger g x true (take_ref s) in
    let s2 : Interp = dec_ref (counted (take_ref s) t) in
    let own : all_plain g x ≡ true = ground (arith, plain) in
    let others : all_of (all_plain g) xs ≡ true = ground (arith, plain) in
    let (same, kept) = to_r_ledger-py_to_r g x true (take_ref s) own in
    let value : Result Sexp = (iterated g pend x true (take_ref s)).0 >>= f in
    let rest = iterate_loop g pend f xs final true s2 in
    let behind =
      and_rest-Holds value s2 rest clean
        (iterate_loop-Holds g pend f xs final s2 others fits clean) in
    ground (arith, kept, behind, fits x)

iterate_loop-length :
    (g : Globals) (pend : PyObject → Option ℕ) (f : Sexp ⊎ PyRef → Result Sexp) (xs : List PyObject)
    (final : Option ℕ) (convert : Bool) (s : Interp) (vs : List Sexp)
    → (iterate_loop g pend f xs final convert s).0 ≡ ok vs
    → (final ≡ none) × (length vs ≡ length xs)
unfolding iterate_loop
iterate_loop-length g pend f [] none convert s vs h = ground arith
iterate_loop-length g pend f [] (some e) convert s vs h = ground arith
iterate_loop-length g pend f (x ∷ xs) final convert s vs h =
    let value = iterated g pend x convert (take_ref s) in
    let s2 : Interp = if convert then dec_ref value.1 else value.1 in
    let (us, e, longer) =
      and_rest-length (value.0 >>= f) s2 (iterate_loop g pend f xs final convert s2) vs h in
    let (no_error, same) = iterate_loop-length g pend f xs final convert s2 us e in
    (no_error, omega (arith, longer, same))

-- No item is, or holds, an instance of a subclass of list.
abbrev pub plain_items : Globals → Answer (List PyObject × Option ℕ) → Bool
plain_items g (raised e) = true
plain_items g (returned it) = all_of (all_plain g) it.0

-- An iteration whose items are converted gives back every reference and leaves no exception pending, on
-- every path, whether an item cannot be converted, the R function throws, or the iterator raises. It
-- starts with no exception pending; no item is or holds an instance of a subclass of list, no
-- conversion leaves an exception of CPython's pending, and the fetching of an exception leaves none.
pub py_iterate-Holds :
    (g : Globals) (left_pending : PyObject → Option ℕ) (f : Sexp ⊎ PyRef → Result Sexp)
    (answer : Answer (List PyObject × Option ℕ)) (s : Interp)
    → plain_items g answer ≡ true
    → ((x : PyObject) → left_pending x ≡ none)
    → IsClean s
    → let r = py_iterate g left_pending f answer true s in Holds 0 s r.1 × IsClean r.1
unfolding py_iterate
py_iterate-Holds g pend f (raised e) s plain fits clean = ground (arith, clean)
py_iterate-Holds g pend f (returned it) s plain fits clean =
    let (behind, clear) = iterate_loop-Holds g pend f it.0 it.1 (take_ref s) plain fits clean in
    ground (arith, behind, clear)

-- An iteration that succeeds gives one value for each item, and its iterator did not raise.
pub py_iterate-length :
    (g : Globals) (pend : PyObject → Option ℕ) (f : Sexp ⊎ PyRef → Result Sexp)
    (items : List PyObject) (final : Option ℕ) (convert : Bool) (s : Interp) (vs : List Sexp)
    → (py_iterate g pend f (returned (items, final)) convert s).0 ≡ ok vs
    → (final ≡ none) × (length vs ≡ length items)
unfolding py_iterate
py_iterate-length g pend f items final convert s vs h =
    iterate_loop-length g pend f items final convert (record s { taken = s.taken + 1 }) vs h
