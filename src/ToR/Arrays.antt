-- ===== src/ToR/Arrays.antt =====
-- What `py_to_r` (python.cpp) makes of numpy arrays.
use pyreticulate.Base.{
  map, ℕ, zero, suc, ◌≡◌, refl, arith, ◌==◌, not, ◌||◌, Bool, true, List, [], ◌∷◌, if◌then◌else◌,
  length, some, tabulate,
}
use pyreticulate.Base.Int.{pos, to_int32}
use pyreticulate.Result.{Result, ok, err, python_exception}
use pyreticulate.Sexp.{Sexp, Sexps, Attrs, no_attrs, logical, integer, numeric, cplx}
use pyreticulate.TypeNum.{
  npy_bool, npy_long, npy_double, npy_cdouble, npy_string, npy_unicode, narrow_array_typenum,
}
use pyreticulate.PyObject.{Array, Head, Globals}
use pyreticulate.ToPy.{dim_of, xlength}
use pyreticulate.ToR.{narrow_dim, array_to_r, fill_array}

-- The dimensions that the vector is given.
abbrev pub r_dims : Array → List ℕ
r_dims a = if length a.dims == 0 then 1 ∷ [] else map narrow_dim a.dims

length-tabulate {ℓ} : {A : Type ℓ} (n : ℕ) (f : ℕ → A) → length (tabulate n f) ≡ n
length-tabulate zero f = refl
length-tabulate (suc n) f = omega (arith, length-tabulate n (λ i. f (suc i)))

abbrev pub is_numeric : ℕ → Bool
is_numeric t = (t == npy_bool) || (t == npy_long) || (t == npy_double) || (t == npy_cdouble)

abbrev attrs_of : Array → Attrs
attrs_of a = record no_attrs { dim = some (r_dims a) }

-- The vector that the array's memory is copied to.
abbrev pub vector_of : ℕ → Array → Sexp
vector_of t a =
    if t == npy_bool
    then logical (attrs_of a) (tabulate a.size (λ i. pos (a.bools i)))
    else if t == npy_long
    then integer (attrs_of a) (tabulate a.size (λ i. to_int32 (a.longs i)))
    else if t == npy_double
    then numeric (attrs_of a) (tabulate a.size a.doubles)
    else cplx (attrs_of a) (tabulate a.size a.complexes)

vector_of-shape :
    (t : ℕ) (a : Array)
    → (xlength (vector_of t a) ≡ a.size) × (dim_of (vector_of t a) ≡ some (r_dims a))
vector_of-shape t a = ground (
  arith,
  length-tabulate {0} a.size (λ i. pos (a.bools i)),
  length-tabulate {0} a.size (λ i. to_int32 (a.longs i)),
  length-tabulate {0} a.size a.doubles,
  length-tabulate {0} a.size a.complexes,
)

-- An array of a numeric type that can be cast is converted to a vector with as many elements as it has,
-- and with its dimensions, an array without dimensions being given one of length 1.
pub array_to_r-shape :
    (g : Globals) (a : Array) (items : List Head) (elements : Result Sexps) (t : ℕ)
    → narrow_array_typenum a.typenum ≡ ok t
    → is_numeric t ≡ true
    → a.cast ≡ true
    → (v : Sexp) × (array_to_r g a items elements ≡ ok v)
      × (xlength v ≡ a.size)
      × (dim_of v ≡ some (r_dims a))
unfolding array_to_r fill_array
array_to_r-shape g a items elements t narrow known cast =
    let (size, dims) = vector_of-shape t a in
    (vector_of t a, ground (arith, narrow, known, cast), size, dims)

-- An array of texts without elements cannot be converted, since numpy refuses to iterate over an array
-- of size zero.
pub array_to_r-empty_text :
    (g : Globals) (a : Array) (items : List Head) (elements : Result Sexps) (t : ℕ)
    → narrow_array_typenum a.typenum ≡ ok t
    → ((t == npy_string) || (t == npy_unicode)) ≡ true
    → a.iterates ≡ not (a.size == 0)
    → a.size ≡ 0
    → array_to_r g a items elements ≡ err python_exception
unfolding array_to_r fill_array
array_to_r-empty_text g a items elements t narrow text refuses empty =
    ground (arith, narrow, text, refuses, empty)
