-- ===== src/Pandas/Nullable.antt =====
-- Missing values between R vectors and pandas' nullable arrays (python.cpp).
use pyreticulate.Base.{
  ℕ, ◌≡◌, refl, sym, ap, inl, inr, Bool, true, false, List, [], ◌∷◌, map, some, if◌then◌else◌,
  arith, length, Bool-cases,
}
use pyreticulate.Base.Int.{ℤ, IsInt32, int_eq, na_integer}
use pyreticulate.Result.{ok}
use pyreticulate.Sexp.{Attrs, Sexp, integer}
use pyreticulate.PyObject.{PyObject, head, Globals, is_pandas_na}
use pyreticulate.ToR.{py_to_r}
use pyreticulate.Pandas.{collect_values}
use pyreticulate.Pandas.Factors.{All}
use pyreticulate.Pandas.ToPandas.{Pandas, mask_of, na_mask}

-- The items of the array that pandas makes of values and a mask: pandas' NA where the mask says so.
abbrev pub masked_items : (ℤ → PyObject) → PyObject → List ℤ → List Bool → List PyObject
masked_items int_object na [] mask = []
masked_items int_object na (z ∷ zs) [] = []
masked_items int_object na (z ∷ zs) (b ∷ mask) =
    (if b then na else int_object z) ∷ masked_items int_object na zs mask

eq_of_int_eq : (a b : ℤ) → int_eq a b ≡ true → a ≡ b
eq_of_int_eq a b h = ground arith

collect-masked :
    (g : Globals) (int_object : ℤ → PyObject) (na : PyObject) (zs : List ℤ) (as_int : Sexp → ℤ)
    → is_pandas_na (head na) ≡ true
    → All IsInt32 zs
    → ((z : ℤ)
        → IsInt32 z
        → (is_pandas_na (head (int_object z)) ≡ false)
          × ((v : Sexp) × (py_to_r g (int_object z) true ≡ ok v) × (as_int v ≡ z)))
    → collect_values g na_integer as_int
        (length zs)
        (masked_items int_object na zs (map (λ z. int_eq z na_integer) zs))
      ≡ ok zs
unfolding collect_values
collect-masked g int_object na [] as_int is_na small is_int = refl
collect-masked g int_object na (z ∷ zs) as_int is_na small is_int =
    let rest = collect-masked g int_object na zs as_int is_na small.1 is_int in
    elim (Bool-cases (int_eq z na_integer)) [
      | inl missing ↦
          rw (missing, is_na, rest)
            (ap (λ y. ok (y ∷ zs)) (sym (eq_of_int_eq z na_integer missing)))
      | inr present ↦
          let (some_int, read) = is_int z small.0 in
          let (v, to_r, back) = read in
          rw (present, some_int, to_r, rest) (ap (λ y. ok (y ∷ zs)) back)
    ]

-- An integer vector of R's integers, with its NA mask, as items of a pandas array (pandas' NA under the mask, and
-- elsewhere an object that is not pandas' NA and converts to the value), is collected into the same vector, NA included.
pub na_mask-collect_values :
    (g : Globals) (int_object : ℤ → PyObject) (na : PyObject) (a : Attrs) (zs : List ℤ)
    (as_int : Sexp → ℤ) (isnan : ℕ → Bool)
    → is_pandas_na (head na) ≡ true
    → All IsInt32 zs
    → ((z : ℤ)
        → IsInt32 z
        → (is_pandas_na (head (int_object z)) ≡ false)
          × ((v : Sexp) × (py_to_r g (int_object z) true ≡ ok v) × (as_int v ≡ z)))
    → (mask : List Bool) × (na_mask true true isnan (integer a zs) ≡ ok (some mask))
      × (collect_values g na_integer as_int (length zs) (masked_items int_object na zs mask)
          ≡ ok zs)
unfolding na_mask mask_of
na_mask-collect_values g int_object na a zs as_int isnan is_na small is_int = (
  map (λ z. int_eq z na_integer) zs,
  refl,
  collect-masked g int_object na zs as_int is_na small is_int,
)
