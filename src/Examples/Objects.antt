-- ===== src/Examples/Objects.antt =====
-- Access to objects at concrete inputs.
use pyreticulate.Base.{ℕ, ◌⊎◌, inl, inr, refl, true, List, [], ◌∷◌, Option, none, some}
use pyreticulate.ToR.Ledger.Whole.{all_plain}
use pyreticulate.Interp.{Holds, IsClean}
use pyreticulate.ToPy.References.{with_rpytools}
use pyreticulate.Base.Int.{pos}
use pyreticulate.Result.{Result, ok, err, stop}
use pyreticulate.Sexp.{Sexp, PyRef}
use pyreticulate.PyObject.{PyObject}
use pyreticulate.Access.{returned, py_iterate}
use pyreticulate.Access.Ledger.{py_iterate-Holds}
use pyreticulate.Access.Call.{Keyword, held_ref, py_call_impl, py_call_impl-Holds}
use pyreticulate.Examples.Values.{
  rpytools, idle, globals, make, one_two, plain_head, int_head, atom,
}

abbrev only_values : Sexp ⊎ PyRef → Result Sexp
only_values (inl v) = ok v
only_values (inr r) = err (stop "not converted")

abbrev no_exception : Option ℕ
no_exception = none

abbrev keywords : List Keyword
keywords = (one_two, returned tt) ∷ []

abbrev two_items : List PyObject
two_items = atom (int_head (pos 1)) ∷ atom (int_head (pos 2)) ∷ []

abbrev no_pending : PyObject → Option ℕ
no_pending x = none

py_iterate-Holds_example :
    let r = py_iterate globals no_pending only_values (returned (two_items, some 5)) true idle in
    Holds 0 idle r.1 × IsClean r.1
unfolding all_plain
py_iterate-Holds_example =
    py_iterate-Holds globals no_pending only_values (returned (two_items, some 5)) idle refl
      (λ x. refl) (refl, refl)

py_call_impl-Holds_example :
    let r =
      py_call_impl globals
        (with_rpytools rpytools make)
        rpytools
        (one_two ∷ one_two ∷ [])
        keywords
        (returned plain_head)
        true
        idle in
    Holds (held_ref r.0) idle r.1 × IsClean r.1
py_call_impl-Holds_example =
    py_call_impl-Holds globals make rpytools (one_two ∷ one_two ∷ []) keywords (returned plain_head)
      true idle (λ a b. refl) (refl, refl)
