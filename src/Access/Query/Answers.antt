-- ===== src/Access/Query/Answers.antt =====
-- What the questions about an object (`py_len_impl`, `py_list_attributes_impl`, `py_str_impl` and
-- `py_slice` of python.cpp) return and leave behind.
use pyreticulate.Base.{
  ℕ, ◌≡◌, ◌<◌, ◌≤◌, refl, arith, Bool, true, not, ◌||◌, List, [], ◌∷◌, Option, none, some, ◌⊎◌, inl,
  inr, if◌then◌else◌, leb, flag, Bool-cases, is_some, String,
}
use pyreticulate.Base.Int.{ℤ, pos, to_int32-IsInt32}
use pyreticulate.Result.{ok, is_ok}
use pyreticulate.Sexp.{Sexp, realsxp, type_of, no_attrs, integer}
use pyreticulate.PyObject.{Head, Globals, py_unicode_check, is_py_array_scalar}
use pyreticulate.Interp.{IsClean, none_left, Interp, take_ref}
use pyreticulate.Access.{Answer, returned, raised}
use pyreticulate.Access.Ledger.{error_behind, is_returned}
use pyreticulate.Access.Dict.{as_std_string}
use pyreticulate.Access.Dict.Keys.{Leaves, as_std_string-Leaves}
use pyreticulate.Access.Query.{
  length_to_r, py_len_impl, names_loop, py_list_attributes_impl, new_text, py_str_impl, py_slice,
}

-- The R number for a length.
abbrev pub IsLength : ℕ → Sexp → Type 0
IsLength n v =
    ((n < 2147483648) × (v ≡ integer no_attrs (pos n ∷ [])))
    ⊎ ((2147483648 ≤ n) × (type_of v ≡ realsxp))

length_to_r-IsLength : (as_double : ℤ → ℕ) (n : ℕ) → IsLength n (length_to_r as_double (pos n))
unfolding length_to_r
length_to_r-IsLength as_double n = elim (Bool-cases (leb n 2147483647)) [
  | inl small ↦ inl (
    ground (arith, small),
    ground (arith, small, to_int32-IsInt32 (pos n) (ground (arith, small))),
  )
  | inr large ↦ inr (ground (arith, large), ground (arith, large))
]

-- The length of an object that has one is returned, with a default value and without: as the R
-- integer of that value up to INT_MAX, and as a double above.
pub py_len_impl-IsLength :
    (as_double : ℤ → ℕ) (n : ℕ) (default : Option Sexp) (s : Interp)
    → (v : Sexp) × ((py_len_impl as_double (returned n) default s).0 ≡ ok v) × IsLength n v
unfolding py_len_impl
py_len_impl-IsLength as_double n none s =
    (length_to_r as_double (pos n), refl, length_to_r-IsLength as_double n)
py_len_impl-IsLength as_double n (some d) s =
    (length_to_r as_double (pos n), refl, length_to_r-IsLength as_double n)

-- The fetching of an exception leaves none pending. Without a default value an exception of the object is thrown on and no longer pending, and else
-- the error indicator is as it was. With one, the indicator is as it was if the object has no length,
-- but if it has, an exception that was pending before is dropped. No reference changes.
pub py_len_impl-error :
    (as_double : ℤ → ℕ) (size : Answer ℕ) (default : Option Sexp) (s : Interp)
    → s.left_by ≡ none_left
    → let r = py_len_impl as_double size default s in
      (r.1.error ≡ (
        if not (is_some default)
        then error_behind size s
        else if is_returned size
        then none
        else s.error))
      × (r.1.taken ≡ s.taken)
      × (r.1.released ≡ s.released)
unfolding py_len_impl
py_len_impl-error as_double (returned n) none s quiet = (refl, refl, refl)
py_len_impl-error as_double (returned n) (some d) s quiet = (refl, refl, refl)
py_len_impl-error as_double (raised e) none s quiet = ground arith
py_len_impl-error as_double (raised e) (some d) s quiet = (refl, refl, refl)

names_loop-Leaves :
    (items : List (Bool × Answer String)) (s : Interp)
    → IsClean s
    → Leaves 0 s (names_loop items s).1
unfolding names_loop
names_loop-Leaves [] s clean = (omega arith, clean)
names_loop-Leaves ((encoded, bytes) ∷ items) s clean =
    let (kept, clean1) = as_std_string-Leaves encoded bytes s clean in
    ground (arith, kept, clean1, names_loop-Leaves items (as_std_string encoded bytes s).1 clean1)

-- A slice gives back the references to its parts, and keeps one, to the slice, exactly if it succeeds;
-- from a clean state, no exception is pending behind.
pub py_slice-Leaves :
    (g : Globals) (start stop step : Bool) (answer : Answer Head) (s : Interp)
    → IsClean s
    → let r = py_slice g start stop step answer s in Leaves (flag (is_ok r.0)) s r.1
unfolding py_slice
py_slice-Leaves g start stop step answer s clean = ground (arith, clean)

-- The names of an object's attributes, from a clean state: every reference
-- is given back and no exception is pending behind, whether PyObject_Dir raises, a name cannot be
-- read as bytes, or all are returned.
pub py_list_attributes_impl-Leaves :
    (names : Answer (List (Bool × Answer String))) (s : Interp)
    → IsClean s
    → Leaves 0 s (py_list_attributes_impl names s).1
unfolding py_list_attributes_impl
py_list_attributes_impl-Leaves (raised e) s clean = ground (arith, clean)
py_list_attributes_impl-Leaves (returned items) s clean =
    ground (arith, names_loop-Leaves items (take_ref s) clean)

new_text-Leaves :
    (text : Answer (Answer String)) (s : Interp) → IsClean s → Leaves 0 s (new_text text s).1
unfolding new_text
new_text-Leaves (raised e) s clean = ground (arith, clean)
new_text-Leaves (returned bytes) s clean =
    ground (arith, as_std_string-Leaves true bytes (take_ref s) clean)

-- The text of an object, from a clean state: every reference is given back
-- and no exception is pending behind, for a text and for another object, on every path.
pub py_str_impl-Leaves :
    (g : Globals) (x : Head) (bytes : Answer String) (str : Answer (Answer String)) (s : Interp)
    → IsClean s
    → Leaves 0 s (py_str_impl g x bytes str s).1
unfolding py_str_impl
py_str_impl-Leaves g x bytes str s clean =
    let own = as_std_string-Leaves (py_unicode_check x || is_py_array_scalar g x) bytes s clean in
    ground (arith, own, clean, new_text-Leaves str s clean)
