-- ===== src/Session/Objects.antt =====
-- The objects whose types the type tests of libpython.h compare with (`initialize_type_objects` of
-- libpython.cpp). What the functions of CPython that build objects return is a record. No status is
-- looked at, and each object's reference is kept for good.
pub mod Tests
use pyreticulate.Base.{ℕ, Bool, true, false, String, if◌then◌else◌}
use pyreticulate.PyObject.{Head, Globals}

pub record Builders : Type 0 where
  -- Py_BuildValue of a format, with NULL for "z", the text "a" for a text and 1024 for an integer
  pub build_value : String → Head
  pub int_from_long : ℕ → Head
  pub long_from_long : ℕ → Head
  pub bool_from_long : ℕ → Head
  pub float_zero : Head  -- PyFloat_FromDouble(0.0)
  pub complex_zero : Head  -- PyComplex_FromDoubles(0.0, 0.0)
  pub byte_array : Head  -- PyByteArray_FromStringAndSize("a", 1)

pub record TypeObjects : Type 0 where
  pub py_none : Head
  pub py_unicode : Head
  pub py_string : Head
  pub py_int : Head
  pub py_long : Head
  pub py_bool : Head
  pub py_true : Head
  pub py_false : Head
  pub py_dict : Head
  pub py_float : Head
  pub py_tuple : Head
  pub py_list : Head
  pub py_complex : Head
  pub py_byte_array : Head
  pub py_dict_class : ℕ

unfoldable pub initialize_type_objects : Builders → Bool → TypeObjects
initialize_type_objects b python3 = record {
  py_none = b.build_value "z";
  py_unicode = b.build_value "u";
  py_string = if python3 then b.build_value "y" else b.build_value "s";
  py_int = b.int_from_long 1024;
  py_long = b.long_from_long 1024;
  py_bool = b.bool_from_long 1;
  py_true = b.bool_from_long 1;
  py_false = b.bool_from_long 0;
  py_dict = b.build_value "{s:i}";
  py_float = b.float_zero;
  py_tuple = b.build_value "(i)";
  py_list = b.build_value "[i]";
  py_complex = b.complex_zero;
  py_byte_array = b.byte_array;
  py_dict_class = (b.build_value "{s:i}").ob_type;
}

-- What the type tests read of the objects.
unfoldable pub with_type_objects : TypeObjects → Globals → Globals
with_type_objects t g = record g {
  py_none = t.py_none.address;
  py_true = t.py_true.address;
  py_false = t.py_false.address;
  int_type = t.py_int.ob_type;
  float_type = t.py_float.ob_type;
  complex_type = t.py_complex.ob_type;
  string_type = t.py_string.ob_type;
  list_type = t.py_list.ob_type;
  tuple_type = t.py_tuple.ob_type;
  dict_type = t.py_dict.ob_type;
  byte_array_type = t.py_byte_array.ob_type;
}
