-- ===== src/Examples/Frames.antt =====
-- Pandas columns, formals and attributes at concrete objects.
use pyreticulate.Base.{
  ◌≡◌, refl, true, false, ◌==◌, List, [], ◌∷◌, map, none, some, arith, any_of, length, flag,
}
use pyreticulate.Base.Int.{ℤ, pos, negsuc, IsInt32, na_integer, to_int32, to_int32-IsInt32}
use pyreticulate.Result.{ok, err, python_exception}
use pyreticulate.Sexp.{Sexp, integer, no_attrs}
use pyreticulate.PyObject.{head, is_pandas_na, r_scalar_type}
use pyreticulate.ToR.{py_to_r}
use pyreticulate.Pandas.{Series, Elements, factor, py_convert_pandas_series}
use pyreticulate.Pandas.ToPandas.{Pandas, Effects}
use pyreticulate.Pandas.Factors.{All, IsCode, IsFactorCode, category_code, category-factor}
use pyreticulate.Formals.{Param, positional, keyword_only, empty_default, dots, py_get_formals}
use pyreticulate.Formals.Dots.{
  IsPlainNamed, count_dots, named, wants_dots, all_names, py_get_formals_lem,
}
use pyreticulate.Attributes.{Attr, TypeObjects}
use pyreticulate.Examples.Values.{globals, make, plain_head, plain_object, int_head}

abbrev first_int : Sexp → ℤ
first_int (integer a (z ∷ zs)) = z
first_int _ = pos 0

abbrev elements : Elements
elements = record {
  na_double = 0;
  nan = 1;
  as_int = first_int;
  as_double = λ v. 0;
  as_logical = first_int;
  as_string = λ v. none;
}

abbrev colours : Series
colours = record {
  dtype_name = "category";
  codes = pos 1 ∷ negsuc 0 ∷ pos 0 ∷ [];
  levels = some "blue" ∷ some "red" ∷ [];
  ordered = false;
  has_dt = false;
  timestamps = [];
  items_fail = false;
  size = 3;
  items = [];
  values = plain_object;
  convert = true;
}

abbrev pandas : Pandas
pandas = record {
  integer_array = true;
  floating_array = true;
  boolean_array = true;
  string_array = true;
  masked = λ t value mask. some value;
  strings = λ value. some value;
  dict_set_item = λ d name o. some d;
  convert_column = λ column convert. ok plain_object;
  isnan = λ d. d == 1;
  mask_made = true;
  mask_has_data = true;
}

abbrev no_effects : Effects
no_effects = record { warnings = 0; false_given = 0 }

abbrev with_na : List ℤ
with_na = pos 5 ∷ na_integer ∷ []

with_na-IsInt32 : All IsInt32 with_na
with_na-IsInt32 = (omega arith, (omega arith, tt))

colours-IsCode : All (IsCode 2) colours.codes
colours-IsCode = (omega arith, (refl, (omega arith, tt)))

int_object-read :
    (z : ℤ)
    → IsInt32 z
    → (is_pandas_na (head (make.int_from_long z)) ≡ false)
      × ((v : Sexp) × (py_to_r globals (make.int_from_long z) true ≡ ok v) × (first_int v ≡ z))
unfolding py_to_r r_scalar_type is_pandas_na
int_object-read z small =
    (refl, (integer no_attrs (to_int32 z ∷ []), refl, to_int32-IsInt32 z small))

abbrev params : List Param
params =
    record { name = some "x"; kind = some positional; dflt = some empty_default }
    ∷ record { name = some "key"; kind = some keyword_only; dflt = some empty_default }
    ∷ []

params-IsPlainNamed : IsPlainNamed params
params-IsPlainNamed = (
  λ n e. (let q : n ≡ "x" = cc in rw q refl),
  ((λ n e. (let q : n ≡ "key" = cc in rw q refl)), tt),
)

abbrev type_objects : TypeObjects
type_objects = record { property_type = 40; is_module = λ h. false }

abbrev attrs : List Attr
attrs =
    record {
      of_class = ok (record plain_head { ob_type = 40 });
      of_object = ok plain_head;
      exception = 5;
    }
    ∷ record { of_class = err python_exception; of_object = ok (int_head (pos 1)); exception = 5 }
    ∷ []

category-factor_example :
    (codes : List ℤ) × (py_convert_pandas_series globals elements colours
      ≡ ok (factor codes colours.levels colours.ordered))
    × All (IsFactorCode (length colours.levels)) codes
    × (map category_code codes ≡ colours.codes)
category-factor_example = category-factor globals elements colours refl colours-IsCode

py_get_formals_lem_example :
    (count_dots (("x", none) ∷ dots ∷ ("key", none) ∷ []) ≡ flag (any_of wants_dots params))
    × (named (("x", none) ∷ dots ∷ ("key", none) ∷ []) ≡ all_names params)
unfolding py_get_formals
py_get_formals_lem_example =
    py_get_formals_lem globals params false (("x", none) ∷ dots ∷ ("key", none) ∷ [])
      params-IsPlainNamed refl
