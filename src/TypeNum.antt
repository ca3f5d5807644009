-- ===== src/TypeNum.antt =====
-- The numpy type numbers of libpython.h, and `narrow_array_typenum` of python.cpp.
use pyreticulate.Base.{ℕ, Bool, true, false, List, [], ◌∷◌, ◌==◌, ◌||◌, any_of, if◌then◌else◌}
use pyreticulate.Result.{Result, ok, err, stop_num}
pub mod Narrow

abbrev pub npy_bool : ℕ
npy_bool = 0

abbrev pub npy_int : ℕ
npy_int = 5

abbrev pub npy_uint : ℕ
npy_uint = 6

abbrev pub npy_long : ℕ
npy_long = 7

abbrev pub npy_longlong : ℕ
npy_longlong = 9

abbrev pub npy_ulonglong : ℕ
npy_ulonglong = 10

abbrev pub npy_float : ℕ
npy_float = 11

abbrev pub npy_double : ℕ
npy_double = 12

abbrev pub npy_longdouble : ℕ
npy_longdouble = 13

abbrev pub npy_cfloat : ℕ
npy_cfloat = 14

abbrev pub npy_cdouble : ℕ
npy_cdouble = 15

abbrev pub npy_object : ℕ
npy_object = 17

abbrev pub npy_string : ℕ
npy_string = 18

abbrev pub npy_unicode : ℕ
npy_unicode = 19

abbrev pub npy_half : ℕ
npy_half = 23

-- The labels of the `case` lines: NPY_BYTE to NPY_INT; then NPY_UINT, NPY_ULONG, NPY_ULONGLONG,
-- NPY_LONG, NPY_LONGLONG, NPY_HALF, NPY_FLOAT and NPY_DOUBLE.
abbrev pub integer_labels : List ℕ
integer_labels = 1 ∷ 2 ∷ 3 ∷ 4 ∷ npy_int ∷ []

abbrev pub double_labels : List ℕ
double_labels =
    npy_uint ∷ 8 ∷ npy_ulonglong ∷ npy_long ∷ npy_longlong ∷ npy_half ∷ npy_float ∷ npy_double ∷ []

abbrev pub complex_labels : List ℕ
complex_labels = npy_cfloat ∷ npy_cdouble ∷ []

abbrev pub kept_labels : List ℕ
kept_labels = npy_string ∷ npy_unicode ∷ npy_object ∷ []

unfoldable pub narrow_array_typenum : ℕ → Result ℕ
narrow_array_typenum typenum =
    if typenum == npy_bool
    then ok npy_bool
    else if any_of (λ t. typenum == t) integer_labels
    then ok npy_long
    else if any_of (λ t. typenum == t) double_labels
    then ok npy_double
    else if any_of (λ t. typenum == t) complex_labels
    then ok npy_cdouble
    else if any_of (λ t. typenum == t) kept_labels
    then ok typenum
    else err (stop_num "Conversion from numpy array type %d is not supported" typenum)
