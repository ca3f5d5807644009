-- ===== src/Result.antt =====
-- Results of code that can throw: the exceptions that python.cpp raises itself, as values.
use pyreticulate.Base.{ℕ, ◌≡◌, refl, Bool, true, false, String}

pub data Failure : Type 0 where
  -- Rcpp::stop with a fixed message, with a number, or with a text in it
  stop : String → Failure
  stop_num : String → ℕ → Failure
  stop_text : String → String → Failure
  -- Rcpp::internal::InterruptedException
  interrupted : Failure
  -- PythonException(py_fetch_error())
  python_exception : Failure

module _ {ℓ} where
  -- A function returns, or an exception leaves it.
  pub data Result (A : Type ℓ) : Type ℓ where
    err : Failure → Result A
    ok : A → Result A

module _ {ℓ κ} {A : Type ℓ} {B : Type κ} where
  infixl 5 ◌>>=◌
  -- What follows a call is run if the call returns.
  abbrev pub ◌>>=◌ : Result A → (A → Result B) → Result B
  err thrown >>= next = err thrown
  ok returned >>= next = next returned

  pub >>=-eq-ok :
      (m : Result A) (next : A → Result B) {b : B}
      → (m >>= next) ≡ ok b
      → (a : A) × (m ≡ ok a) × (next a ≡ ok b)
  >>=-eq-ok (ok returned) next h = (returned, refl, h)
  >>=-eq-ok (err thrown) next h = cc

abbrev pub is_ok {ℓ} : {A : Type ℓ} → Result A → Bool
is_ok (ok a) = true
is_ok (err e) = false
