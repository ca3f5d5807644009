-- ===== src/ToPy/Roundtrip.antt =====
-- An R vector that goes to Python and back (`r_to_py_cpp` and `py_to_r` of python.cpp).
use pyreticulate.Base.{
  ◌<◌, none, ◌∙◌, ap, ◌≢◌, ℕ, ◌≡◌, ◌≢◌, refl, ap, ◌∙◌, Bool, true, false, List, [], ◌∷◌, map,
  Option, some, String, arith, if◌then◌else◌,
}
use pyreticulate.Base.Int.{ℤ, pos, IsInt32, negsuc, to_int32, to_int32-IsInt32}
use pyreticulate.Result.{Result, ok}
use pyreticulate.Sexp.{
  SexpType, nilsxp, lglsxp, intsxp, realsxp, cplxsxp, strsxp, type_eq, no_attrs, Complex, Sexp,
  logical, integer, numeric, cplx, character, Sexps,
}
use pyreticulate.PyObject.{
  Head, PyObject, object, Items, end, head, heads, Globals, py_is_none, py_bool_check, py_int_check,
  py_long_check, py_float_check, py_complex_check, py_unicode_check, py_list_check_exact,
  is_python_str, r_scalar_type, is_py_array_scalar, is_numpy_str,
}
use pyreticulate.ToR.{scalar_to_r, scalars_to_r, py_to_r, as_logical, items_to_r}
use pyreticulate.ToR.Lists.{AllScalars, scalar_list_type-AllScalars}
use pyreticulate.ToPy.{as_python_str, Make, items_of, vector_to_py, r_to_py_cpp, int_nonzero}

-- What CPython documents about the objects that its constructors return, in terms of the tests
-- that python.cpp makes: each is of its own type, holds the value, and is no None.
pub record IsPython (g : Globals) (m : Make) : Type 0 where
  pub python3 : g.python3 ≡ true
  pub singletons : (g.py_true ≢ g.py_false) × (g.py_true ≢ g.py_none) × (g.py_false ≢ g.py_none)
  pub int_object :
      (z : ℤ)
      → let h = head (m.int_from_long z) in
        (py_is_none g h ≡ false)
        × (py_bool_check g h ≡ false)
        × (py_int_check g h ≡ true)
        × (h.long_value ≡ z)
  pub float_object :
      (d : ℕ)
      → let h = head (m.float_from_double d) in
        (py_is_none g h ≡ false)
        × (py_bool_check g h ≡ false)
        × (py_int_check g h ≡ false)
        × (py_long_check h ≡ false)
        × (py_float_check g h ≡ true)
        × (h.double_value ≡ d)
  pub complex_object :
      (z : Complex)
      → let h = head (m.complex_from_doubles z) in
        (py_is_none g h ≡ false)
        × (py_bool_check g h ≡ false)
        × (py_int_check g h ≡ false)
        × (py_long_check h ≡ false)
        × (py_float_check g h ≡ false)
        × (py_complex_check g h ≡ true)
        × (h.complex_value ≡ z)
  pub bool_object :
      (z : ℤ)
      → (head (m.bool_from_long z)).address ≡ (if int_nonzero z then g.py_true else g.py_false)
  pub unicode_object :
      (s : String)
      → let h = head (m.unicode_from_string s) in
        (py_is_none g h ≡ false)
        × (py_bool_check g h ≡ false)
        × (py_int_check g h ≡ false)
        × (py_long_check h ≡ false)
        × (py_float_check g h ≡ false)
        × (py_complex_check g h ≡ false)
        × (py_unicode_check h ≡ true)
        × (h.text ≡ s)
  pub list_object :
      (xs : Items)
      → (h : Head) × (m.list_of xs ≡ object h xs end)
        × (py_is_none g h ≡ false)
        × (py_bool_check g h ≡ false)
        × (py_int_check g h ≡ false)
        × (py_long_check h ≡ false)
        × (py_float_check g h ≡ false)
        × (py_complex_check g h ≡ false)
        × (py_unicode_check h ≡ false)
        × (is_py_array_scalar g h ≡ false)
        × (py_list_check_exact g h ≡ true)

-- The two logical values that are not NA.
abbrev pub IsTruth : ℤ → Type 0
IsTruth (pos n) = n < 2
IsTruth _ = ⊥

abbrev pub All : {A : Type 0} → (A → Type 0) → List A → Type 0
All P [] = Unit
All P (x ∷ xs) = P x × All P xs

-- The vectors that come back.
pub data IsPlain : Sexp → Type 0 where
  integers : (vs : List ℤ) → vs ≢ [] → All IsInt32 vs → IsPlain (integer no_attrs vs)
  doubles : (vs : List ℕ) → vs ≢ [] → IsPlain (numeric no_attrs vs)
  complexes : (vs : List Complex) → vs ≢ [] → IsPlain (cplx no_attrs vs)
  logicals : (vs : List ℤ) → vs ≢ [] → All IsTruth vs → IsPlain (logical no_attrs vs)
  strings :
      (vs : List (Option String))
      → vs ≢ []
      → All (λ s. s ≢ none) vs
      → IsPlain (character no_attrs vs)

differs : (t : SexpType) → t ≢ nilsxp → type_eq t nilsxp ≡ false
differs t h = ground arith

-- The object made of a value is no None, is a scalar of the type `t`, and the value is read back.
abbrev IsBack : {A : Type 0} → Globals → (A → PyObject) → SexpType → (Head → A) → A → Type 0
IsBack g f t read v =
    (py_is_none g (head (f v)) ≡ false)
    × (r_scalar_type g (head (f v)) ≡ ok t)
    × (read (head (f v)) ≡ v)

py_to_r-scalar :
    (g : Globals) (x : PyObject) (t : SexpType) (c : Bool)
    → t ≢ nilsxp
    → py_is_none g (head x) ≡ false
    → r_scalar_type g (head x) ≡ ok t
    → py_to_r g x c ≡ ok (scalar_to_r g t (head x))
unfolding py_to_r
py_to_r-scalar g (object h is es) t c scalar none_no s = rw (none_no, s, differs t scalar)

-- A list of scalars of one type.
py_to_r-list :
    (g : Globals) (h : Head) (is : Items) (t : SexpType) (c : Bool)
    → t ≢ nilsxp
    → py_is_none g h ≡ false
    → r_scalar_type g h ≡ ok nilsxp
    → py_list_check_exact g h ≡ true
    → heads is ≢ []
    → AllScalars g t (heads is)
    → py_to_r g (object h is end) c ≡ scalars_to_r g t (heads is) (items_to_r g is c)
unfolding py_to_r
py_to_r-list g h is t c scalar none_no no_scalar list some_items all = rw (
  none_no,
  no_scalar,
  list,
  (scalar_list_type-AllScalars g t (heads is) scalar).1 (some_items, all),
)

module _ (g : Globals) (m : Make) (python : IsPython g m) where
  list-no_scalar : (is : Items) → r_scalar_type g (python.list_object is).0 ≡ ok nilsxp
  unfolding r_scalar_type is_python_str is_numpy_str
  list-no_scalar is =
      let o = python.list_object is in rw (o.3, o.4, o.5, o.6, o.7, o.8, python.python3, o.9)

  -- One vector type: the element's conversion `f`, its type `t`, and what is read back.
  module _ {A : Type 0} (f : A → PyObject) (t : SexpType) (read : Head → A) where
    items-AllScalars :
        (vs : List A) → All (IsBack g f t read) vs → AllScalars g t (heads (items_of g m f vs))
    items-AllScalars [] h = tt
    items-AllScalars (v ∷ vs) h = (h.0.1, items-AllScalars vs h.1)

    map-heads :
        (vs : List A) → All (IsBack g f t read) vs → map read (heads (items_of g m f vs)) ≡ vs
    map-heads [] h = refl
    map-heads (v ∷ vs) h = rw (h.0.2, map-heads vs h.1)

    vector_to_py-back :
        (wrap : List A → Sexp)
        → t ≢ nilsxp
        → ((h : Head) → scalar_to_r g t h ≡ wrap (read h ∷ []))
        → ((hs : List Head) (els : Result Sexps)
            → scalars_to_r g t hs els ≡ ok (wrap (map read hs)))
        → (vs : List A) (c : Bool) → vs ≢ []
        → All (IsBack g f t read) vs
        → py_to_r g (vector_to_py g m f vs) c ≡ ok (wrap vs)
    unfolding vector_to_py
    vector_to_py-back wrap scalar from_scalar from_list [] c n h = absurd (n refl)
    vector_to_py-back wrap scalar from_scalar from_list (v ∷ []) c n h =
        py_to_r-scalar g (f v) t c scalar h.0.0 h.0.1
        ∙ ap ok (from_scalar (head (f v)) ∙ ap (λ w. wrap (w ∷ [])) h.0.2)
    vector_to_py-back wrap scalar from_scalar from_list (v ∷ w ∷ vs) c n h =
        let is = items_of g m f (v ∷ w ∷ vs) in
        let o = python.list_object is in
        rw o.1 (
          py_to_r-list g o.0 is t c scalar o.2 (list-no_scalar is) o.10 (λ e. cc)
            (items-AllScalars (v ∷ w ∷ vs) h)
          ∙ from_list (heads is) (items_to_r g is c)
          ∙ ap (λ l. ok (wrap l)) (map-heads (v ∷ w ∷ vs) h))

  int-IsBack :
      (vs : List ℤ)
      → All IsInt32 vs
      → All (IsBack g m.int_from_long intsxp (λ h. to_int32 h.long_value)) vs
  unfolding r_scalar_type
  int-IsBack [] h = tt
  int-IsBack (z ∷ zs) h =
      let o = python.int_object z in
      ((o.0, rw (o.1, o.2), ap to_int32 o.3 ∙ to_int32-IsInt32 z h.0), int-IsBack zs h.1)

  float-IsBack : (vs : List ℕ) → All (IsBack g m.float_from_double realsxp (λ h. h.double_value)) vs
  unfolding r_scalar_type
  float-IsBack [] = tt
  float-IsBack (d ∷ ds) =
      let o = python.float_object d in ((o.0, rw (o.1, o.2, o.3, o.4), o.5), float-IsBack ds)

  complex-IsBack :
      (vs : List Complex) → All (IsBack g m.complex_from_doubles cplxsxp (λ h. h.complex_value)) vs
  unfolding r_scalar_type
  complex-IsBack [] = tt
  complex-IsBack (z ∷ zs) =
      let o = python.complex_object z in
      ((o.0, rw (o.1, o.2, o.3, o.4, o.5), o.6), complex-IsBack zs)

  bool-tests :
      (z : ℤ)
      → IsTruth z
      → (py_is_none g (head (m.bool_from_long z)) ≡ false)
        × (py_bool_check g (head (m.bool_from_long z)) ≡ true)
        × (as_logical g (head (m.bool_from_long z)) ≡ z)
  bool-tests (pos n) h =
      let e = python.bool_object (pos n) in
      let o = python.singletons in (ground arith, ground arith, ground arith)
  bool-tests (negsuc n) h = absurd h

  bool-IsBack :
      (vs : List ℤ) → All IsTruth vs → All (IsBack g m.bool_from_long lglsxp (as_logical g)) vs
  unfolding r_scalar_type
  bool-IsBack [] h = tt
  bool-IsBack (z ∷ zs) h = let o = bool-tests z h.0 in ((o.0, rw o.1, o.2), bool-IsBack zs h.1)

  string-IsBack :
      (vs : List (Option String))
      → All (λ s. s ≢ none) vs
      → All (IsBack g (λ s. as_python_str g m s false) strsxp (λ h. some h.text)) vs
  unfolding r_scalar_type as_python_str is_python_str
  string-IsBack [] h = tt
  string-IsBack (none ∷ ss) h = absurd (h.0 refl)
  string-IsBack (some s ∷ ss) h =
      let o = python.unicode_object s in
      (
        rw python.python3 (o.0, rw (o.1, o.2, o.3, o.4, o.5, o.6), ap some o.7),
        string-IsBack ss h.1,
      )

-- Given what CPython documents about its constructors, a vector of at least one element and no
-- attributes goes to Python and comes back as it was: integers (NA among them), doubles and complex
-- numbers of any value, logicals that are not NA, and strings that are not NA.
pub py_to_r-r_to_py_cpp :
    (g : Globals) (m : Make)
    → IsPython g m
    → {x : Sexp} → IsPlain x
    → (c d : Bool) → (o : PyObject) × (r_to_py_cpp g m x c ≡ ok o) × (py_to_r g o d ≡ ok x)
unfolding r_to_py_cpp scalar_to_r scalars_to_r
py_to_r-r_to_py_cpp g m python (integers vs n h) c d = (
  vector_to_py g m m.int_from_long vs,
  refl,
  vector_to_py-back g m python m.int_from_long intsxp (λ h. to_int32 h.long_value)
      (integer no_attrs) (λ e. cc) (λ h. refl) (λ hs els. refl) vs d n (int-IsBack g m python vs h),
)
py_to_r-r_to_py_cpp g m python (doubles vs n) c d = (
  vector_to_py g m m.float_from_double vs,
  refl,
  vector_to_py-back g m python m.float_from_double realsxp (λ h. h.double_value) (numeric no_attrs)
      (λ e. cc) (λ h. refl) (λ hs els. refl) vs d n (float-IsBack g m python vs),
)
py_to_r-r_to_py_cpp g m python (complexes vs n) c d = (
  vector_to_py g m m.complex_from_doubles vs,
  refl,
  vector_to_py-back g m python m.complex_from_doubles cplxsxp (λ h. h.complex_value) (cplx no_attrs)
      (λ e. cc) (λ h. refl) (λ hs els. refl) vs d n (complex-IsBack g m python vs),
)
py_to_r-r_to_py_cpp g m python (logicals vs n h) c d = (
  vector_to_py g m m.bool_from_long vs,
  refl,
  vector_to_py-back g m python m.bool_from_long lglsxp (as_logical g) (logical no_attrs) (λ e. cc)
      (λ h. refl) (λ hs els. refl) vs d n (bool-IsBack g m python vs h),
)
py_to_r-r_to_py_cpp g m python (strings vs n h) c d = (
  vector_to_py g m (λ s. as_python_str g m s false) vs,
  refl,
  vector_to_py-back g m python (λ s. as_python_str g m s false) strsxp (λ h. some h.text)
      (character no_attrs) (λ e. cc) (λ h. refl) (λ hs els. refl) vs d n
      (string-IsBack g m python vs h),
)
