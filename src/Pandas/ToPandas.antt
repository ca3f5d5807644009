-- ===== src/Pandas/ToPandas.antt =====
-- R vectors as pandas columns (python.cpp): `na_mask`, `r_to_py_pandas_nullable_series` and
-- `r_convert_dataframe`.
use pyreticulate.Base.{
  ℕ, ◌+◌, not, ◌||◌, Bool, true, false, List, [], ◌∷◌, map, Option, none, some, String,
  if◌then◌else◌, is_some,
}
use pyreticulate.Base.Int.{int_eq, na_integer}
use pyreticulate.Result.{Result, ok, err, python_exception, stop, ◌>>=◌}
use pyreticulate.Sexp.{
  Complex, SexpType, intsxp, realsxp, strsxp, lglsxp, cplxsxp, Sexp, logical, integer, numeric,
  cplx, character, type_of, type_eq,
}
use pyreticulate.PyObject.{PyObject, Globals}
use pyreticulate.ToPy.{
  Make, is_convertible_to_numpy, r_to_py_numpy, r_to_py_cpp, object_bit, from_option,
}

-- What `na_mask` writes: none for a type that the `switch` does not fill.
unfoldable pub mask_of : (ℕ → Bool) → Sexp → Option (List Bool)
mask_of isnan (logical a v) = some (map (λ z. int_eq z na_integer) v)
mask_of isnan (integer a v) = some (map (λ z. int_eq z na_integer) v)
mask_of isnan (numeric a v) = some (map isnan v)
mask_of isnan (cplx a v) = some (map (λ (z : Complex). isnan z.0 || isnan z.1) v)
mask_of isnan (character a v) = some (map (λ s. not (is_some s)) v)
mask_of isnan _ = none

-- `na_mask`, which throws if the array cannot be made or has no data, as `made` and `has_data` say.
unfoldable pub na_mask : Bool → Bool → (ℕ → Bool) → Sexp → Result (Option (List Bool))
unfolding mask_of
na_mask made has_data isnan x =
    if not made
    then err python_exception
    else if not has_data
    then err python_exception
    else ok (mask_of isnan x)

-- The constructors of pandas.arrays that are there, the arrays that they make, and the dictionary
-- of the data frame.
pub record Pandas : Type 0 where
  pub integer_array : Bool
  pub floating_array : Bool
  pub boolean_array : Bool
  pub string_array : Bool
  pub masked : SexpType → PyObject → Option (List Bool) → Option PyObject  -- constructor(value, mask, False)
  pub strings : PyObject → Option PyObject  -- StringArray(value, False)
  pub dict_set_item : PyObject → String → Option PyObject → Option PyObject
  pub convert_column : Sexp → Bool → Result PyObject  -- r_convert_dataframe_column
  pub isnan : ℕ → Bool
  pub mask_made : Bool  -- PyArray_SimpleNew
  pub mask_has_data : Bool  -- PyArray_DATA

-- Warnings, and the references to Py_False that the code has given away; it takes none.
pub record Effects : Type 0 where
  pub warnings : ℕ
  pub false_given : ℕ

abbrev pub warn : Effects → Effects
warn s = record s { warnings = s.warnings + 1 }

-- PyTuple_SetItem of Py_False, which takes the reference over.
abbrev pub give_false : Effects → Effects
give_false s = record s { false_given = s.false_given + 1 }

-- The constructor for a type, if pandas has it.
unfoldable pub constructor_for : Pandas → SexpType → Result Bool
constructor_for p intsxp = ok p.integer_array
constructor_for p realsxp = ok p.floating_array
constructor_for p lglsxp = ok p.boolean_array
constructor_for p strsxp = ok p.string_array
constructor_for p t =
    err (stop "R type not handled. Please supply one of int, double, logical or character")

module _ (g : Globals) (m : Make) (p : Pandas) where
  -- The column (`none` is NULL) and the effects.
  unfoldable pub r_to_py_pandas_nullable_series :
      Sexp → Effects → Result (Option PyObject) × Effects
  unfolding na_mask constructor_for
  r_to_py_pandas_nullable_series column s =
      let as_numpy : Result (Option PyObject) = r_to_py_numpy g m column >>= λ a. ok (some a) in
      let plain = r_to_py_numpy g m column in
      elim (constructor_for p (type_of column)) [
        | err e ↦ (err e, s)
        | ok false ↦ (as_numpy, warn s)
        | ok true ↦ elim plain [
          | err e ↦ (err e, s)
          | ok value ↦
              if type_eq (type_of column) strsxp
              then elim (p.strings value) [
                | none ↦ (as_numpy, warn (give_false s))
                | some c ↦ (ok (some c), give_false s)
              ]
              else elim (na_mask p.mask_made p.mask_has_data p.isnan column) [
                | err e ↦ (err e, s)
                | ok mask ↦ (ok (p.masked (type_of column) value mask), give_false s)
              ]
        ]
      ]

  -- The value of one column: by the S3 method, by the default conversion, by numpy, or by pandas.
  unfoldable pub column_value : Bool → Sexp → Bool → Effects → Result (Option PyObject) × Effects
  unfolding r_to_py_pandas_nullable_series
  column_value nullable_dtypes column convert s =
      let dispatched : Result (Option PyObject) =
        p.convert_column column convert >>= λ o. ok (some o) in
      let default : Result (Option PyObject) =
        r_to_py_cpp g m column convert >>= λ o. ok (some o) in
      let as_numpy : Result (Option PyObject) = r_to_py_numpy g m column >>= λ o. ok (some o) in
      let as_pandas = r_to_py_pandas_nullable_series column s in
      if object_bit column
      then (dispatched, s)
      else if not (is_convertible_to_numpy g column)
      then (default, s)
      else if not nullable_dtypes || type_eq (type_of column) cplxsxp
      then (as_numpy, s)
      else as_pandas

  -- The loop of `r_convert_dataframe` over the columns.
  unfoldable pub convert_columns :
      Bool → List (String × Sexp) → Bool → PyObject → Effects → Result PyObject × Effects
  convert_columns nullable_dtypes [] convert dict s = (ok dict, s)
  convert_columns nullable_dtypes ((name, column) ∷ columns) convert dict s =
      let (value, s') = column_value nullable_dtypes column convert s in
      elim (value >>= λ v. from_option (p.dict_set_item dict name v)) [
        | err e ↦ (err e, s')
        | ok d ↦ convert_columns nullable_dtypes columns convert d s'
      ]

  unfoldable pub r_convert_dataframe :
      Bool → List (String × Sexp) → Bool → Effects → Result PyObject × Effects
  unfolding column_value convert_columns
  r_convert_dataframe nullable_dtypes columns convert s =
      convert_columns nullable_dtypes columns convert m.dict_new s
