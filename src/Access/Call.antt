-- ===== src/Access/Call.antt =====
-- The call of a Python object (`py_call_impl` of python.cpp). The tuple of the arguments takes over
-- the reference to each, and gives them back with its own; the dictionary of the named arguments
-- keeps references of its own, which are Python's. A conversion is taken to leave the indicator as it was.
use pyreticulate.Base.{
  ℕ, ◌+◌, ◌≡◌, refl, ◌∙◌, Bool, List, [], ◌∷◌, true, none, some, arith, is_some, inl, inr,
  if◌then◌else◌,
}
use pyreticulate.Result.{Result, ok, err}
use pyreticulate.Sexp.{Sexp, PyRef}
use pyreticulate.PyObject.{Head, PyObject, Globals}
use pyreticulate.ToPy.{Make}
use pyreticulate.ToPy.References.{Rpytools, with_rpytools, r_to_py_refs}
use pyreticulate.ToPy.References.Leaves.{Result-cases}
use pyreticulate.ToPy.References.Owned.{r_to_py_refs-r_to_py}
use pyreticulate.Interp.{Interp, IsClean, counted, take_ref, dec_ref, Holds}
use pyreticulate.Access.{Answer, returned, raised, new_ref, status, throw_error, own_ref}

-- The destruction of the tuple: its own reference and the `n` that it took over.
abbrev pub release_tuple : ℕ → Interp → Interp
release_tuple n s = record s { released = s.released + (n + 1) }

-- A named argument, and what PyDict_SetItemString answers.
abbrev pub Keyword : Type 0
Keyword = Sexp × Answer (Unit {0})

module _ (g : Globals) (m : Make) (p : Rpytools) where
  -- The loop over the arguments: how many are stored in the tuple, and whether all are.
  unfoldable pub fill_args : List Sexp → Bool → ℕ → Interp → Result (Unit {0}) × ℕ × Interp
  fill_args [] convert n s = (ok tt, n, s)
  fill_args (a ∷ args) convert n s =
      let (r, t) = r_to_py_refs g m p a convert s in
      let s1 = counted s t in
      let rest = fill_args args convert (n + 1) s1 in
      elim r [ err e ↦ (err e, n, s1) | ok o ↦ rest ]

  -- The loop over the named arguments.
  unfoldable pub fill_keywords : List Keyword → Bool → Interp → Result (Unit {0}) × Interp
  unfolding throw_error
  fill_keywords [] convert s = (ok tt, s)
  fill_keywords ((v, answer) ∷ keywords) convert s =
      let (r, t) = r_to_py_refs g m p v convert s in
      let s0 = counted s t in
      let (fine, s1) = status answer s0 in
      let (thrown, s2) = throw_error {A = Unit} s1 in
      let rest = fill_keywords keywords convert (dec_ref s1) in
      elim r [ err e ↦ (err e, s0) | ok o ↦ if fine then rest else (thrown, dec_ref s2) ]

  -- The call itself, and the reference to its result.
  unfoldable pub call_object : Answer Head → Bool → Interp → Result PyRef × Interp
  unfolding throw_error own_ref
  call_object answer convert s =
      let (res, s1) = new_ref answer s in
      elim res [ none ↦ throw_error s1 | some h ↦ own_ref g h convert s1 ]

  unfoldable pub py_call_impl :
      List Sexp → List Keyword → Answer Head → Bool → Interp → Result PyRef × Interp
  unfolding fill_args fill_keywords call_object
  py_call_impl args keywords answer convert s =
      let (r, n, s1) = fill_args args convert 0 (take_ref s) in
      let (rk, s2) = fill_keywords keywords convert (take_ref s1) in
      let (res, s3) = call_object answer convert s2 in
      elim r [
        | err e ↦ (err e, release_tuple n s1)
        | ok u ↦ elim rk [
          | err e ↦ (err e, release_tuple n (dec_ref s2))
          | ok u' ↦ (res, release_tuple n (dec_ref s3))
        ]
      ]

-- The references in a result.
abbrev pub held_ref : Result PyRef → ℕ
held_ref (ok r) = 1
held_ref (err e) = 0

fill_args-Holds :
    (g : Globals) (m : Make) (p : Rpytools) (args : List Sexp) (convert : Bool) (n : ℕ) (s : Interp)
    → ((a b : PyObject) → is_some (m.set_base_object a b) ≡ true)
    → let r = fill_args g (with_rpytools p m) p args convert n s in
      (r.2.taken + s.released + n ≡ r.2.released + s.taken + r.1)
      × (r.2.error ≡ s.error)
      × (r.2.left_by ≡ s.left_by)
unfolding fill_args
fill_args-Holds g m p [] convert n s sets = (omega arith, refl, refl)
fill_args-Holds g m p (a ∷ args) convert n s sets =
    let (r, t) = r_to_py_refs g (with_rpytools p m) p a convert s in
    let (same, kept) = r_to_py_refs-r_to_py g m p a convert s sets in
    let ih = fill_args-Holds g m p args convert (n + 1) (counted s t) sets in
    elim (Result-cases r) [
      | inl (e, q) ↦ ground (arith, q, kept)
      | inr (o, q) ↦ ground (arith, q, kept, ih)
    ]

fill_keywords-Holds :
    (g : Globals) (m : Make) (p : Rpytools) (keywords : List Keyword) (convert : Bool) (s : Interp)
    → ((a b : PyObject) → is_some (m.set_base_object a b) ≡ true)
    → IsClean s
    → let r = fill_keywords g (with_rpytools p m) p keywords convert s in
      Holds 0 s r.1 × IsClean r.1
unfolding fill_keywords
fill_keywords-Holds g m p [] convert s sets clean = (omega arith, clean)
fill_keywords-Holds g m p ((v, raised e) ∷ keywords) convert s sets clean =
    let (r, t) = r_to_py_refs g (with_rpytools p m) p v convert s in
    let (same, kept) = r_to_py_refs-r_to_py g m p v convert s sets in
    elim (Result-cases r) [
      | inl (e', q) ↦ ground (arith, q, kept, clean)
      | inr (o, q) ↦ ground (arith, q, kept, clean)
    ]
fill_keywords-Holds g m p ((v, returned u) ∷ keywords) convert s sets clean =
    let (r, t) = r_to_py_refs g (with_rpytools p m) p v convert s in
    let (same, kept) = r_to_py_refs-r_to_py g m p v convert s sets in
    let ih = fill_keywords-Holds g m p keywords convert (dec_ref (counted s t)) sets clean in
    elim (Result-cases r) [
      | inl (e, q) ↦ ground (arith, q, kept, clean)
      | inr (o, q) ↦ ground (arith, q, kept, ih)
    ]

call_object-Holds :
    (g : Globals) (m : Make) (p : Rpytools) (answer : Answer Head) (convert : Bool) (s : Interp)
    → IsClean s
    → let r = call_object g m p answer convert s in Holds (held_ref r.0) s r.1 × IsClean r.1
unfolding call_object
call_object-Holds g m p answer convert s clean = ground arith

-- A call gives back every reference that it takes but the one to its result, and leaves no exception
-- pending, on every path: an argument cannot be converted, a named argument cannot be stored, Python
-- raises, the result cannot be wrapped, or it returns. It starts with no exception pending, every array
-- can be given its base object, and the fetching of an exception leaves none pending.
pub py_call_impl-Holds :
    (g : Globals) (m : Make) (p : Rpytools) (args : List Sexp) (keywords : List Keyword)
    (answer : Answer Head) (convert : Bool) (s : Interp)
    → ((a b : PyObject) → is_some (m.set_base_object a b) ≡ true)
    → IsClean s
    → let r = py_call_impl g (with_rpytools p m) p args keywords answer convert s in
      Holds (held_ref r.0) s r.1 × IsClean r.1
unfolding py_call_impl
py_call_impl-Holds g m p args keywords answer convert s sets clean =
    let n = with_rpytools p m in
    let s0 : Interp = take_ref s in
    let (stored, kept_error, kept_left) = fill_args-Holds g m p args convert 0 s0 sets in
    let s1 = (fill_args g n p args convert 0 s0).2 in
    let clean1 : IsClean s1 = (kept_error ∙ clean.0, kept_left ∙ clean.1) in
    let named = fill_keywords-Holds g m p keywords convert (take_ref s1) sets clean1 in
    let s2 = (fill_keywords g n p keywords convert (take_ref s1)).1 in
    let called = call_object-Holds g n p answer convert s2 named.1 in
    ground (arith, stored, clean1, named, called)
