-- ===== src/Pandas.antt =====
-- Columns of pandas data frames (python.cpp): `py_convert_pandas_series` and what it calls, from
-- pandas to R, and `na_mask`, `r_to_py_pandas_nullable_series` and `r_convert_dataframe`, from R.
-- What pandas answers about a series is a record. R's NaN is a bit pattern; `isnan` is R's test.
pub mod ToPandas
pub mod Factors
pub mod Nullable
use text.Mathlib.Text.{◌==◌ as str_eq}
use pyreticulate.Base.{
  ℕ, zero, suc, ◌+◌, ◌==◌, not, ◌||◌, Bool, true, false, List, [], ◌∷◌, map, Option, none, some,
  String, if◌then◌else◌, any_of, length,
}
use pyreticulate.Base.Int.{ℤ, pos, negsuc, int_eq, na_integer}
use pyreticulate.Result.{Result, ok, err, python_exception, stop_text, ◌>>=◌}
use pyreticulate.Sexp.{SexpType, intsxp, realsxp, strsxp, lglsxp, Sexp}
use pyreticulate.PyObject.{PyObject, head, Globals, is_pandas_na}
use pyreticulate.ToR.{py_to_r}

-- NULLABLE_INTEGERS
abbrev pub nullable_integers : List String
nullable_integers =
    "Int8" ∷ "Int16" ∷ "Int32" ∷ "Int64" ∷ "UInt8" ∷ "UInt16" ∷ "UInt32" ∷ "UInt64" ∷ []

abbrev pub one_of : List String → String → Bool
one_of names name = any_of (λ n. str_eq name n) names

-- nullable_typename_to_sexptype
unfoldable pub nullable_typename_to_sexptype : String → Result SexpType
nullable_typename_to_sexptype name =
    if one_of nullable_integers name
    then ok intsxp
    else if str_eq name "Float32" || str_eq name "Float64"
    then ok realsxp
    else if str_eq name "string"
    then ok strsxp
    else if str_eq name "boolean"
    then ok lglsxp
    else err (stop_text "Can't cast column with type name: " name)

abbrev pub nullable_dtype : String → Bool
nullable_dtype name =
    one_of nullable_integers name || one_of ("boolean" ∷ "Float32" ∷ "Float64" ∷ "string" ∷ []) name

-- pandas_nullable_collect_values: `size` elements, NA where the series has pandas' NA; `element`
-- is Rcpp's conversion of one value to the vector's type.
unfoldable pub collect_values :
    {A : Type 0} → Globals → A → (Sexp → A) → ℕ → List PyObject → Result (List A)
collect_values g na element zero items = ok []
collect_values g na element (suc n) [] = err python_exception
collect_values g na element (suc n) (x ∷ xs) =
    let rest = collect_values g na element n xs in
    let value = py_to_r g x true >>= λ v. rest >>= λ vs. ok (element v ∷ vs) in
    let missing = rest >>= λ vs. ok (na ∷ vs) in if is_pandas_na (head x) then missing else value

-- The code of a category, as R's factors have it: from 1, and NA for -1.
unfoldable pub factor_code : ℤ → ℤ
factor_code (pos n) = pos (n + 1)
factor_code (negsuc zero) = na_integer
factor_code (negsuc (suc n)) = negsuc n

pub record Series : Type 0 where
  pub dtype_name : String
  pub codes : List ℤ  -- cat.codes.values, converted
  pub levels : List (Option String)  -- dtype.categories.values, converted
  pub ordered : Bool
  pub has_dt : Bool
  pub timestamps : List (Option ℕ)  -- of each item; none where timestamp() raises
  pub items_fail : Bool  -- the iterator ends with an exception
  pub size : ℕ
  pub items : List PyObject
  pub values : PyObject
  pub convert : Bool

-- The R column: a factor, a date-time vector, a vector with NA, or what `py_to_r` gives.
pub data Column : Type 0 where
  factor : List ℤ → List (Option String) → Bool → Column
  datetime : List ℕ → Column
  integers : List ℤ → Column
  doubles : List ℕ → Column
  logicals : List ℤ → Column
  strings : List (Option String) → Column
  plain : Sexp → Column

-- The elements of R's vectors: the missing value of each type, and Rcpp's conversions.
pub record Elements : Type 0 where
  pub na_double : ℕ
  pub nan : ℕ
  pub as_int : Sexp → ℤ
  pub as_double : Sexp → ℕ
  pub as_logical : Sexp → ℤ
  pub as_string : Sexp → Option String

module _ (g : Globals) (e : Elements) where
  -- The `switch` on the type of a nullable column.
  unfoldable pub nullable_column : Series → SexpType → Result Column
  unfolding collect_values
  nullable_column s intsxp =
      collect_values g na_integer e.as_int s.size s.items >>= λ v. ok (integers v)
  nullable_column s realsxp =
      collect_values g e.na_double e.as_double s.size s.items >>= λ v. ok (doubles v)
  nullable_column s lglsxp =
      collect_values g na_integer e.as_logical s.size s.items >>= λ v. ok (logicals v)
  nullable_column s strsxp =
      collect_values g none e.as_string s.size s.items >>= λ v. ok (strings v)
  nullable_column s t = err (stop_text "Unsupported data type name: " s.dtype_name)

  -- The seconds of a time stamp, NaN where Python has none.
  abbrev pub seconds : Option ℕ → ℕ
  seconds none = e.nan
  seconds (some d) = d

  unfoldable pub py_convert_pandas_series : Series → Result Column
  unfolding factor_code nullable_column
  py_convert_pandas_series s =
      let posixct : Result Column =
        if s.items_fail then err python_exception else ok (datetime (map seconds s.timestamps)) in
      let nullable = nullable_typename_to_sexptype s.dtype_name >>= λ t. nullable_column s t in
      let other = py_to_r g s.values s.convert >>= λ v. ok (plain v) in
      if str_eq s.dtype_name "category"
      then ok (factor (map factor_code s.codes) s.levels s.ordered)
      else if str_eq s.dtype_name "datetime64[ns]" || s.has_dt
      then posixct
      else if nullable_dtype s.dtype_name
      then nullable
      else other

  -- The loop of `py_convert_pandas_df` over its series; `fails` says that the iterator ends with an
  -- exception.
  unfoldable pub py_convert_pandas_df : List Series → Bool → Result (List Column)
  unfolding py_convert_pandas_series
  py_convert_pandas_df [] fails = if fails then err python_exception else ok []
  py_convert_pandas_df (s ∷ ss) fails =
      let rest = py_convert_pandas_df ss fails in
      py_convert_pandas_series s >>= λ c. rest >>= λ cs. ok (c ∷ cs)
