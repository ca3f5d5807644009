-- ===== src/ToR/Ledger/Objects.antt =====
-- The references of the conversion to R (python.cpp) through the elements of an object.
use pyreticulate.Base.{◌≡◌, ap, arith, not, ◌||◌, Bool, true, List, String, inl, inr}
use pyreticulate.Result.{Result, ok, ◌>>=◌}
use pyreticulate.Sexp.{no_attrs, Attrs, vec, Sexps}
use pyreticulate.PyObject.{Head, Globals, py_list_check, py_list_check_exact, r_scalar_type}
use pyreticulate.ToR.{object_to_r, named_list}
use pyreticulate.Interp.{Interp, take_ref, dec_ref}
use pyreticulate.ToPy.References.Leaves.{Result-cases}
use pyreticulate.ToPy.References.Containers.{IsHandedOn}
use pyreticulate.ToR.Ledger.{as_list, as_named, object_ledger}
use pyreticulate.ToR.Ledger.Kept.{
  after_text-Holds, list_ledger-IsHandedOn, array_ledger-IsHandedOn, after_scalar-Holds,
  after_opaque-Holds,
}

as_list-IsHandedOn :
    (a : Attrs) (s : Interp) (v : Result Sexps) (r : Result Sexps × Interp)
    → IsHandedOn s v r
    → IsHandedOn s (v >>= λ vs. ok (vec a vs)) (as_list a r)
as_list-IsHandedOn a s v r (same, kept) = (ap (λ u. u >>= λ vs. ok (vec a vs)) same, kept)

as_named-IsHandedOn :
    (s : Interp) (v : Result (List String × Sexps)) (r : Result (List String × Sexps) × Interp)
    → IsHandedOn (take_ref s) v r
    → IsHandedOn s (v >>= λ vs. ok (named_list vs)) (as_named r)
as_named-IsHandedOn s v r (same, kept) =
    (ap (λ u. u >>= λ vs. ok (named_list vs)) same, omega (arith, kept))

-- The object is no instance of a subclass of list.
abbrev pub is_plain : Globals → Head → Bool
is_plain g h = not (py_list_check h) || py_list_check_exact g h

pub object_ledger-IsHandedOn :
    (g : Globals) (h : Head) (items : List Head) (v : Result Sexps)
    (w : Result (List String × Sexps)) (elements subclass : Interp → Result Sexps × Interp)
    (values pairs : Interp → Result (List String × Sexps) × Interp) (convert : Bool) (s : Interp)
    → is_plain g h ≡ true
    → ((t : Interp) → IsHandedOn t v (elements t))
    → ((t : Interp) → IsHandedOn t w (values t))
    → ((t : Interp) → IsHandedOn t w (pairs t))
    → IsHandedOn s
        (object_to_r g h items v w convert)
        (object_ledger g h items elements subclass values pairs convert s)
unfolding object_to_r object_ledger
object_ledger-IsHandedOn g h items v w elements subclass values pairs convert s plain he hv hp =
    elim (Result-cases (r_scalar_type g h)) [
      | inl (e, p) ↦ ground (arith, p)
      | inr (t, p) ↦ ground (
        arith,
        p,
        plain,
        after_text-Holds g h s,
        list_ledger-IsHandedOn g items v elements s (he s),
        as_list-IsHandedOn no_attrs s v (elements s) (he s),
        as_named-IsHandedOn s w (values (take_ref s)) (hv (take_ref s)),
        as_named-IsHandedOn s w (pairs (take_ref s)) (hp (take_ref s)),
        array_ledger-IsHandedOn g h.array items v elements s (he (take_ref (dec_ref (take_ref s)))),
        after_scalar-Holds g h s,
        after_opaque-Holds g h s,
      )
    ]
