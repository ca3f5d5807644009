-- ===== src/Examples/Conversions.antt =====
-- The conversions at concrete objects.
use pyreticulate.Base.{◌≡◌, ◌≢◌, ◌↔◌, refl, true, false, [], ◌∷◌, if◌then◌else◌, arith}
use pyreticulate.Base.Int.{ℤ, pos}
use pyreticulate.Result.{ok}
use pyreticulate.Sexp.{nilsxp, intsxp}
use pyreticulate.PyObject.{PyObject, Items, nil, cons, head, scalar_list_type, is_py_array_scalar}
use pyreticulate.ToR.{py_to_r}
use pyreticulate.ToR.Lists.{AllScalars, scalar_list_type-AllScalars}
use pyreticulate.ToPy.{r_to_py_cpp, int_nonzero}
use pyreticulate.ToPy.Roundtrip.{IsPython, IsPlain, integers, py_to_r-r_to_py_cpp}
use pyreticulate.Examples.Values.{globals, make, one_two, int_head, list_head, atom}

abbrev one_two_items : Items
one_two_items = cons (atom (int_head (pos 1))) (cons (atom (int_head (pos 2))) nil)

bool_address :
    (z : ℤ)
    → (head (make.bool_from_long z)).address
      ≡ (if int_nonzero z then globals.py_true else globals.py_false)
bool_address z = refl

documented : IsPython globals make
unfolding is_py_array_scalar
documented = record {
  python3 = refl;
  singletons = (ground arith, ground arith, ground arith);
  int_object = λ z. (refl, refl, refl, refl);
  float_object = λ d. (refl, refl, refl, refl, refl, refl);
  complex_object = λ z. (refl, refl, refl, refl, refl, refl, refl);
  bool_object = bool_address;
  unicode_object = λ s. (refl, refl, refl, refl, refl, refl, refl, refl);
  list_object = λ xs. (list_head, refl, refl, refl, refl, refl, refl, refl, refl, refl, refl);
}

one_two-IsPlain : IsPlain one_two
one_two-IsPlain = integers (pos 1 ∷ pos 2 ∷ []) (ground arith) (omega arith, (omega arith, tt))

intsxp_proper : intsxp ≢ nilsxp
intsxp_proper = ground arith

py_to_r-r_to_py_cpp_example :
    (o : PyObject) × (r_to_py_cpp globals make one_two false ≡ ok o)
    × (py_to_r globals o true ≡ ok one_two)
py_to_r-r_to_py_cpp_example = py_to_r-r_to_py_cpp globals make documented one_two-IsPlain false true

scalar_list_type-AllScalars_example :
    (scalar_list_type globals (int_head (pos 1) ∷ int_head (pos 2) ∷ []) ≡ ok intsxp) ↔ (
      ((int_head (pos 1) ∷ int_head (pos 2) ∷ []) ≢ [])
      × AllScalars globals intsxp (int_head (pos 1) ∷ int_head (pos 2) ∷ []))
scalar_list_type-AllScalars_example =
    scalar_list_type-AllScalars globals intsxp (int_head (pos 1) ∷ int_head (pos 2) ∷ [])
      intsxp_proper
