-- ===== src/Pandas/Factors.antt =====
-- Categories and nullable columns of pandas as R columns (python.cpp).
use text.Mathlib.Text.{◌==◌ as str_eq}
use pyreticulate.Base.{
  ℕ, zero, suc, ◌<◌, ◌≤◌, ◌≡◌, refl, ap, Bool, true, false, ◌||◌, List, [], ◌∷◌, map, String,
  if◌then◌else◌, arith, length,
}
use pyreticulate.Base.Int.{ℤ, pos, negsuc}
use pyreticulate.Result.{is_ok, ok, err, stop_text}
use pyreticulate.Sexp.{intsxp, realsxp, strsxp, lglsxp}
use pyreticulate.PyObject.{Globals}
use pyreticulate.Pandas.{
  Series, factor, Elements, factor_code, py_convert_pandas_series, nullable_typename_to_sexptype,
  nullable_dtype, nullable_integers, one_of,
}

-- A code that pandas gives for one of `n` categories, or -1.
abbrev pub IsCode : ℕ → ℤ → Type 0
IsCode n (pos c) = c < n
IsCode n (negsuc c) = c ≡ 0

-- An element of an R factor of `n` levels: from 1 to `n`, or NA.
abbrev pub IsFactorCode : ℕ → ℤ → Type 0
IsFactorCode n (pos c) = (1 ≤ c) × (c ≤ n)
IsFactorCode n (negsuc c) = c ≡ 2147483647

abbrev pub All : (ℤ → Type 0) → List ℤ → Type 0
All P [] = Unit
All P (z ∷ zs) = P z × All P zs

factor_code-IsFactorCode : (n : ℕ) (z : ℤ) → IsCode n z → IsFactorCode n (factor_code z)
unfolding factor_code
factor_code-IsFactorCode n (pos c) h = omega arith
factor_code-IsFactorCode n (negsuc zero) h = refl
factor_code-IsFactorCode n (negsuc (suc c)) h = absurd (omega arith)

factor_codes-IsFactorCode :
    (n : ℕ) (zs : List ℤ) → All (IsCode n) zs → All (IsFactorCode n) (map factor_code zs)
factor_codes-IsFactorCode n [] h = tt
factor_codes-IsFactorCode n (z ∷ zs) h =
    (factor_code-IsFactorCode n z h.0, factor_codes-IsFactorCode n zs h.1)

-- The code of a category from its element of the factor.
unfoldable pub category_code : ℤ → ℤ
category_code (pos zero) = negsuc 0
category_code (pos (suc c)) = pos c
category_code (negsuc c) = negsuc 0

category_codes :
    (n : ℕ) (zs : List ℤ) → All (IsCode n) zs → map category_code (map factor_code zs) ≡ zs
unfolding category_code factor_code
category_codes n [] h = refl
category_codes n (pos c ∷ zs) h = ground (arith, category_codes n zs h.1)
category_codes n (negsuc zero ∷ zs) h = ap (λ r. negsuc 0 ∷ r) (category_codes n zs h.1)
category_codes n (negsuc (suc c) ∷ zs) h = absurd (omega (arith, h.0))

-- A categorical series whose codes are those of its categories becomes a factor with the same
-- levels and order flag: each element lies between 1 and the number of levels or is NA, and no two
-- codes are confused, since the codes can be read back from the factor.
pub category-factor :
    (g : Globals) (e : Elements) (s : Series)
    → str_eq s.dtype_name "category" ≡ true
    → All (IsCode (length s.levels)) s.codes
    → (codes : List ℤ) × (py_convert_pandas_series g e s ≡ ok (factor codes s.levels s.ordered))
      × All (IsFactorCode (length s.levels)) codes
      × (map category_code codes ≡ s.codes)
unfolding py_convert_pandas_series
category-factor g e s h codes = (
  map factor_code s.codes,
  rw h,
  factor_codes-IsFactorCode (length s.levels) s.codes codes,
  category_codes (length s.levels) s.codes codes,
)

agree :
    (name : String) (i f32 f64 s b : Bool)
    → (i || (b || (f32 || (f64 || (s || false)))))
      ≡ is_ok (
          if i
          then ok intsxp
          else if f32 || f64
          then ok realsxp
          else if s
          then ok strsxp
          else if b
          then ok lglsxp
          else err (stop_text "Can't cast column with type name: " name))
agree name i f32 f64 s b = ground arith

-- The two lists of pandas' nullable types in python.cpp agree: a type name is treated as nullable
-- exactly if an R type is assigned to it, so the error for an unknown name cannot occur there.
pub nullable_dtype-is_ok :
    (name : String) → nullable_dtype name ≡ is_ok (nullable_typename_to_sexptype name)
unfolding nullable_typename_to_sexptype
nullable_dtype-is_ok name =
    agree name (one_of nullable_integers name) (str_eq name "Float32") (str_eq name "Float64")
      (str_eq name "string") (str_eq name "boolean")
