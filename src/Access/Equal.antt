-- ===== src/Access/Equal.antt =====
-- The comparison with a text and the test for pandas' missing value (`py_get_attr`, `py_equal` and
-- `is_pandas_na` of python.cpp), with the references and the error indicator. An attribute is `none` if
-- PyObject_HasAttrString does not find it; as_python_str fails for a text that is no UTF-8.
use pyreticulate.Base.{
  ℕ, ◌≡◌, arith, Bool, true, false, ◌&&◌, ◌||◌, Option, none, some, is_some, if◌then◌else◌,
}
use pyreticulate.Result.{Result, ok, err}
use pyreticulate.Interp.{Interp, clear, raise, dec_ref, Holds}
use pyreticulate.Access.{Answer, returned, raised, new_ref, throw_error}

unfoldable pub py_get_attr : Option (Answer (Unit {0})) → Interp → Option (Unit {0}) × Interp
py_get_attr none s = (none, clear s)
py_get_attr (some answer) s = new_ref answer s

-- PyObject_RichCompareBool(x, pyStr, Py_EQ) == 1, by its answer: -1 is no.
unfoldable pub compared : Answer Bool → Interp → Bool × Interp
compared (returned b) s = (b, s)
compared (raised e) s = (false, raise e s)

unfoldable pub py_equal : Answer (Unit {0}) → Answer Bool → Interp → Result Bool × Interp
unfolding throw_error compared
py_equal text answer s =
    let (made, s1) = new_ref text s in
    let (same, s2) = compared answer s1 in
    elim made [ none ↦ throw_error s1 | some u ↦ (ok same, dec_ref s2) ]

-- What Python answers about an object, its class, and the texts that are compared.
pub record Asked : Type 0 where
  pub class_ : Option (Answer (Unit {0}))
  pub module_ : Option (Answer (Unit {0}))
  pub name : Option (Answer (Unit {0}))
  pub in_missing : Answer Bool  -- the module is pandas._libs.missing
  pub is_na_type : Answer Bool
  pub is_c_na_type : Answer Bool
  pub text : Answer (Unit {0})

-- The names of the class. The second is compared if the first is not the same.
unfoldable pub named_na : Asked → Interp → Result Bool × Interp
unfolding py_get_attr py_equal
named_na a s =
    let (name, s1) = py_get_attr a.name s in
    let (first, s2) = py_equal a.text a.is_na_type s1 in
    let (second, s3) = py_equal a.text a.is_c_na_type s2 in
    elim name [
      | none ↦ (ok false, s1)
      | some u ↦ elim first [
        | err e ↦ (err e, dec_ref s2)
        | ok true ↦ (ok true, dec_ref s2)
        | ok false ↦ (second, dec_ref s3)
      ]
    ]

unfoldable pub ask_module : Asked → Interp → Result Bool × Interp
unfolding py_get_attr py_equal named_na
ask_module a s =
    let (module_, s1) = py_get_attr a.module_ s in
    let (same, s2) = py_equal a.text a.in_missing s1 in
    let (answer, s3) = named_na a s2 in
    elim module_ [
      | none ↦ (ok false, s1)
      | some u ↦ elim same [
        | err e ↦ (err e, dec_ref s2)
        | ok false ↦ (ok false, dec_ref s2)
        | ok true ↦ (answer, dec_ref s3)
      ]
    ]

-- is_pandas_na
unfoldable pub ask_pandas_na : Asked → Interp → Result Bool × Interp
unfolding py_get_attr ask_module
ask_pandas_na a s =
    let (class_, s1) = py_get_attr a.class_ s in
    let (answer, s2) = ask_module a s1 in
    elim class_ [ none ↦ (ok false, s1) | some u ↦ (answer, dec_ref s2) ]

py_get_attr-Holds :
    (a : Option (Answer (Unit {0}))) (s : Interp)
    → Holds (if is_some (py_get_attr a s).0 then 1 else 0) s (py_get_attr a s).1
unfolding py_get_attr
py_get_attr-Holds a s = ground arith

py_equal-Holds :
    (text : Answer (Unit {0})) (answer : Answer Bool) (s : Interp)
    → Holds 0 s (py_equal text answer s).1
unfolding py_equal compared throw_error
py_equal-Holds text answer s = ground arith

named_na-Holds : (a : Asked) (s : Interp) → Holds 0 s (named_na a s).1
unfolding named_na
named_na-Holds a s =
    let s1 = (py_get_attr a.name s).1 in
    let s2 = (py_equal a.text a.is_na_type s1).1 in
    ground (
      arith,
      py_get_attr-Holds a.name s,
      py_equal-Holds a.text a.is_na_type s1,
      py_equal-Holds a.text a.is_c_na_type s2,
    )

ask_module-Holds : (a : Asked) (s : Interp) → Holds 0 s (ask_module a s).1
unfolding ask_module
ask_module-Holds a s =
    let s1 = (py_get_attr a.module_ s).1 in
    let s2 = (py_equal a.text a.in_missing s1).1 in
    ground (
      arith,
      py_get_attr-Holds a.module_ s,
      py_equal-Holds a.text a.in_missing s1,
      named_na-Holds a s2,
    )

-- The test gives back every reference that it takes, on every path.
pub ask_pandas_na-Holds : (a : Asked) (s : Interp) → Holds 0 s (ask_pandas_na a s).1
unfolding ask_pandas_na
ask_pandas_na-Holds a s =
    let s1 = (py_get_attr a.class_ s).1 in
    ground (arith, py_get_attr-Holds a.class_ s, ask_module-Holds a s1)

-- The answer is there.
abbrev pub is_there : Option (Answer (Unit {0})) → Bool
is_there (some (returned u)) = true
is_there _ = false

abbrev pub says_yes : Answer Bool → Bool
says_yes (returned b) = b
says_yes (raised e) = false

-- Where the texts can be made, the answer is yes exactly if the class, its module and its name are
-- there, the module compares as equal, and one of the two names does. A comparison that raises an
-- exception counts as no.
pub ask_pandas_na_lem :
    (a : Asked) (s : Interp)
    → a.text ≡ returned tt
    → (ask_pandas_na a s).0
      ≡ ok (
          is_there a.class_
          && is_there a.module_
          && says_yes a.in_missing
          && is_there a.name
          && (says_yes a.is_na_type || says_yes a.is_c_na_type))
unfolding ask_pandas_na ask_module named_na py_get_attr py_equal compared
ask_pandas_na_lem a s e = ground (arith, e)

-- If comparing the module's name raises an exception, the test answers no and leaves it pending.
pub ask_pandas_na-pending :
    (a : Asked) (e : ℕ) (s : Interp)
    → a.text ≡ returned tt
    → is_there a.class_ ≡ true
    → is_there a.module_ ≡ true
    → a.in_missing ≡ raised e
    → ((ask_pandas_na a s).0 ≡ ok false) × ((ask_pandas_na a s).1.error ≡ some e)
unfolding ask_pandas_na ask_module named_na py_get_attr py_equal compared
ask_pandas_na-pending a e s p c m i = ground (arith, p, c, m, i)
