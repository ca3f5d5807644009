-- ===== src/ToPy/References/Leaves.antt =====
-- The references behind the branches of `r_to_py_cpp` (python.cpp) that convert no element.
use pyreticulate.Base.{
  ℕ, zero, suc, ◌≡◌, refl, arith, true, List, [], ◌∷◌, none, some, ◌⊎◌, inl, inr, Option-cases,
  if◌then◌else◌, length, is_some,
}
use pyreticulate.Result.{Failure, Result, ok, err, ◌>>=◌, is_ok}
use pyreticulate.Sexp.{Attrs, Sexp, character}
use pyreticulate.PyObject.{PyObject, Globals}
use pyreticulate.Interp.{Interp, take_ref, dec_ref, Holds}
use pyreticulate.ToPy.{
  Make, NewArray, numpy_memory, dim_of, xlength, from_option, vector_to_py, finish_array,
  r_to_py_numpy, by_attrs, ref_get, function_name,
}
use pyreticulate.ToPy.References.{
  Rpytools, make_wrapper, given_ref, stolen, vector_refs, base_refs, finish_refs, array_refs,
  attrs_refs, function_refs,
}

-- A run from `s` gives `v`, and holds the reference to it if there is one.
abbrev pub IsOwned : {A : Type 0} → ℕ → Interp → Result A → Result A × Interp → Type 0
IsOwned n s v r = (r.0 ≡ v) × Holds (if is_ok v then n else 0) s r.1

pub given_ref-IsOwned : (v : Result PyObject) (s : Interp) → IsOwned 1 s v (given_ref v s)
given_ref-IsOwned (ok o) s = (refl, omega arith)
given_ref-IsOwned (err e) s = (refl, omega arith)

pub stolen-Holds : (n : ℕ) (s : Interp) → Holds 0 s (stolen n s)
stolen-Holds zero s = omega arith
stolen-Holds (suc n) s = omega (arith, stolen-Holds n (dec_ref (take_ref s)))

pub Result-cases :
    {A : Type 0} (r : Result A) → ((e : Failure) × (r ≡ err e)) ⊎ ((a : A) × (r ≡ ok a))
Result-cases (err e) = inl (e, refl)
Result-cases (ok a) = inr (a, refl)

module _ (g : Globals) (m : Make) where
  pub vector_refs-IsOwned :
      {A : Type 0} (f : A → PyObject) (v : List A) (s : Interp)
      → IsOwned 1 s (ok (vector_to_py g m f v)) (vector_refs g m f v s)
  unfolding vector_refs vector_to_py
  vector_refs-IsOwned f [] s = (refl, omega arith)
  vector_refs-IsOwned f (v ∷ []) s = (refl, omega arith)
  vector_refs-IsOwned f (v ∷ w ∷ vs) s =
      (refl, omega (arith, stolen-Holds (length (v ∷ w ∷ vs)) (take_ref s)))

  module _ (sets : (a b : PyObject) → is_some (m.set_base_object a b) ≡ true) where
    pub base_refs-IsOwned :
        (array capsule : PyObject) (s : Interp)
        → IsOwned 1 s
            (if m.has_set_base_object
              then from_option (m.set_base_object array capsule)
              else ok (m.assign_base array capsule))
            (base_refs g m array capsule (take_ref s))
    unfolding base_refs
    base_refs-IsOwned array capsule s = ground (arith, sets array capsule)

    pub finish_refs-IsOwned :
        (x : Sexp) (array : PyObject) (s : Interp)
        → IsOwned 1 s (finish_array g m x array) (finish_refs g m x array (take_ref s))
    unfolding finish_refs finish_array
    finish_refs-IsOwned (character a v) array s =
        (refl, omega (arith, stolen-Holds (length v) (take_ref s)))
    finish_refs-IsOwned x array s = base_refs-IsOwned array (m.capsule_new x) s

    pub array_refs-IsOwned :
        (x : Sexp) (s : Interp) → IsOwned 1 s (r_to_py_numpy g m x) (array_refs g m x s)
    unfolding array_refs r_to_py_numpy
    array_refs-IsOwned x s =
        let dims : List ℕ = elim (dim_of x) [ none ↦ xlength x ∷ [] | some ds ↦ ds ] in
        elim (Result-cases (numpy_memory g m x)) [
          | inl (e, p) ↦ ground (arith, p)
          | inr (t, p) ↦
              let new : NewArray = record {
                dims = dims;
                typenum = t.0;
                memory = t.1;
                flags = t.2;
              } in
              elim (Option-cases (m.array_new new)) [
                | inl q ↦ ground (arith, p, q)
                | inr (array, q) ↦ ground (arith, p, q, finish_refs-IsOwned x array s)
              ]
        ]

    pub attrs_refs-IsOwned :
        (a : Attrs) (x : Sexp) (v : Result PyObject) (by_type : Interp → Result PyObject × Interp)
        (s : Interp)
        → IsOwned 1 s v (by_type s)
        → IsOwned 1 s (by_attrs g m a x v) (attrs_refs g m a x by_type s)
    unfolding attrs_refs by_attrs
    attrs_refs-IsOwned a x v by_type s owned = ground (
      arith,
      owned,
      array_refs-IsOwned x s,
      given_ref-IsOwned (m.as_reference x >>= λ r. ref_get g m r) s,
    )

  pub function_refs-IsOwned :
      (p : Rpytools) (a : Attrs) (x : Sexp) (s : Interp)
      → IsOwned 1 s
          (make_wrapper p (m.capsule_new x) (function_name g m a))
          (function_refs g m p a x s)
  unfolding function_refs make_wrapper
  function_refs-IsOwned p a x s = ground arith
