-- ===== src/TypeNum/Narrow.antt =====
-- What `narrow_array_typenum` (python.cpp) returns.
use pyreticulate.Base.{ℕ, ◌≡◌, ◌⊎◌, arith}
use pyreticulate.Result.{ok}
use pyreticulate.TypeNum.{
  npy_bool, npy_long, npy_double, npy_cdouble, npy_object, npy_string, npy_unicode,
  narrow_array_typenum,
}

-- A type number that is narrowed at all is narrowed to a boolean, C long, double or complex double,
-- or it is a string, unicode or object type and stays as it is.
pub narrow_range :
    (t r : ℕ)
    → narrow_array_typenum t ≡ ok r
    → (r ≡ npy_bool)
      ⊎ (r ≡ npy_long)
      ⊎ (r ≡ npy_double)
      ⊎ (r ≡ npy_cdouble)
      ⊎ ((r ≡ t) × ((r ≡ npy_string) ⊎ (r ≡ npy_unicode) ⊎ (r ≡ npy_object)))
unfolding narrow_array_typenum
narrow_range t r h = ground arith
