-- ===== src/Attributes.antt =====
-- The kinds of attributes and the comparison of python.cpp: `py_get_attr_types_impl` and
-- `py_compare_impl`, and the guard of the error indicator, `PyErrorScopeGuard`.
pub mod Types
use text.Mathlib.Text.{◌==◌ as str_eq}
use pyreticulate.Base.{
  ℕ, ◌+◌, ◌==◌, not, ◌&&◌, ◌||◌, Bool, true, false, List, [], ◌∷◌, map, Option, none, some, String,
  if◌then◌else◌,
}
use pyreticulate.Base.Int.{ℤ, pos, negsuc, int_eq}
use pyreticulate.Result.{Result, ok, err, python_exception, stop_text, ◌>>=◌}
use pyreticulate.PyObject.{
  Head, Globals, has_feature, py_list_check, py_long_check, py_bool_check, py_int_check,
  py_float_check, py_is_none, is_py_array, is_python_str, type_check,
}
use pyreticulate.Interp.{Interp, fetch, restore, clear, raise}

-- UNKNOWN, VECTOR, ARRAY, LIST, ENVIRONMENT, FUNCTION
abbrev pub unknown_type : ℕ
unknown_type = 0

abbrev pub vector_type : ℕ
vector_type = 1

abbrev pub array_type : ℕ
array_type = 2

abbrev pub list_type : ℕ
list_type = 4

abbrev pub environment_type : ℕ
environment_type = 5

abbrev pub function_type : ℕ
function_type = 6

-- What Python answers about a name: the attribute of the class and of the object, or the exception
-- of the failed look-up. A property's look-up on the object runs its getter.
pub record Attr : Type 0 where
  pub of_class : Result Head
  pub of_object : Result Head
  pub exception : ℕ

pub record TypeObjects : Type 0 where
  pub property_type : ℕ  -- PyProperty_Type
  pub is_module : Head → Bool  -- PyObject_IsInstance of PyModule_Type

abbrev pub py_tuple_check : Head → Bool
py_tuple_check h = has_feature h 26

abbrev pub py_dict_check : Head → Bool
py_dict_check h = has_feature h 29

abbrev pub py_type_check : Head → Bool
py_type_check h = has_feature h 31

-- The kind of an attribute, the state after it, and the outcome for the attributes behind it.
abbrev pub join_types : {S : Type 0} → Result ℕ → S → Result (List ℕ) × S → Result (List ℕ) × S
join_types (err e) s rest = (err e, s)
join_types (ok n) s rest = (rest.0 >>= λ ns. ok (n ∷ ns), rest.1)

module _ (g : Globals) (types : TypeObjects) where
  -- The chain of tests on an attribute that was found.
  unfoldable pub attr_type : Head → Result ℕ
  attr_type h =
      let scalar = is_python_str g h >>= λ str.
      ok (if str then vector_type else if types.is_module h then environment_type else list_type) in
      if py_is_none g h || py_type_check h
      then ok unknown_type
      else if h.callable
      then ok function_type
      else if py_list_check h || py_tuple_check h || py_dict_check h
      then ok list_type
      else if is_py_array g h
      then ok array_type
      else if py_bool_check g h || py_int_check g h || py_long_check h || py_float_check g h
      then ok vector_type
      else scalar

  abbrev pub is_property : Result Head → Bool
  is_property (err e) = false
  is_property (ok h) = type_check g h types.property_type

  -- PyErr_Clear after a look-up that failed.
  abbrev pub looked_up : Result Head → ℕ → Interp → Interp
  looked_up (ok h) e s = s
  looked_up (err f) e s = clear (raise e s)

  abbrev pub found_type : Result Head → Result ℕ
  found_type (err f) = ok unknown_type
  found_type (ok h) = attr_type h

  -- The body of the loop: the type, the interpreter, and how often the object was asked.
  unfoldable pub attr_step : Bool → Attr → Interp × ℕ → Result ℕ × (Interp × ℕ)
  attr_step resolve_properties a (s, asked) =
      let s1 = if resolve_properties then s else looked_up a.of_class a.exception s in
      if not resolve_properties && is_property a.of_class
      then (ok unknown_type, (s1, asked))
      else (found_type a.of_object, (looked_up a.of_object a.exception s1, asked + 1))

  -- The loop.
  unfoldable pub attr_types : Bool → List Attr → Interp × ℕ → Result (List ℕ) × (Interp × ℕ)
  unfolding attr_step
  attr_types resolve_properties [] s = (ok [], s)
  attr_types resolve_properties (a ∷ as_) s =
      let (t, s1) = attr_step resolve_properties a s in
      join_types t s1 (attr_types resolve_properties as_ s1)

  -- With the guard: the indicator is fetched by its constructor and restored by its destructor,
  -- also when an exception leaves the function.
  unfoldable pub py_get_attr_types_impl : Bool → List Attr → Interp → Result (List ℕ) × (Interp × ℕ)
  unfolding attr_types
  py_get_attr_types_impl resolve_properties as_ s =
      let (saved, s0) = fetch s in
      let (r, s1) = attr_types resolve_properties as_ (s0, 0) in (r, (restore saved s1.0, s1.1))

-- The opcodes of libpython.h.
abbrev pub opcode : String → Option ℕ
opcode op =
    if str_eq op "=="
    then some 2
    else if str_eq op "!="
    then some 3
    else if str_eq op ">"
    then some 4
    else if str_eq op ">="
    then some 5
    else if str_eq op "<"
    then some 0
    else if str_eq op "<="
    then some 1
    else none

-- `compare` is PyObject_RichCompareBool of the two objects, by the opcode.
unfoldable pub py_compare_impl : (ℕ → ℤ) → String → Result Bool
py_compare_impl rich_compare op = elim (opcode op) [
  | none ↦ err (stop_text "Unexpected comparison operation " op)
  | some c ↦
      if int_eq (rich_compare c) (negsuc 0)
      then err python_exception
      else ok (int_eq (rich_compare c) (pos 1))
]
