-- ===== src/Examples/Values.antt =====
-- The data of the examples: addresses, objects, constructors, and states.
use text.Mathlib.Text.{◌==◌ as str_eq}
use pyreticulate.ToPy.References.{Rpytools}
use pyreticulate.Base.{ℕ, Bool, ltb, all_of, ◌==◌, true, false, [], ◌∷◌, none, some, if◌then◌else◌}
use pyreticulate.Base.Int.{ℤ, pos}
use pyreticulate.Bytes.{Bytes, codes}
use pyreticulate.Wide.{Locale}
use pyreticulate.Session.Objects.{Builders}
use pyreticulate.Result.{ok, err, stop}
use pyreticulate.Sexp.{Sexp, null, integer, no_attrs}
use pyreticulate.PyObject.{Array, Head, PyObject, object, nil, end, Globals}
use pyreticulate.ToPy.{Make, int_nonzero}
use pyreticulate.Signals.{Signals}
use pyreticulate.Interp.{Interp, none_left}
use pyreticulate.Interp.NumpyApi.{Numpy, npy_version}
use pyreticulate.Library.{Linker, Loader}
use pyreticulate.Pending.{Refs}

abbrev pub quiet : Signals
quiet = record { py_pending = 0; r_pending = 0; r_suspended = 0; set_interrupt_calls = 0 }

abbrev pub idle : Interp
idle = record { error = none; taken = 0; released = 0; interrupted = false; left_by = none_left }

abbrev pub numpy : Numpy
numpy = record {
  import_error = none;
  api_error = none;
  pointer_error = none;
  c_version = npy_version;
  feature = 13;
}

abbrev pub linker : Linker
linker = record {
  dlopen = λ path. some 7;
  dlsym = λ handle name. some 4096;
  dlclose = λ handle. true;
  dlerror = none;
}

abbrev pub loader : Loader
loader = record { handle = none; slots = []; error = [] }

abbrev pub no_refs : Refs
no_refs = record {
  func = 0;
  data_ref = 0;
  result = 0;
  func_released = 0;
  data_released = 0;
  result_released = 0;
}

abbrev pub no_array : Array
no_array = record {
  dims = [];
  size = 0;
  typenum = 0;
  cast = true;
  bools = λ i. 0;
  longs = λ i. pos 0;
  doubles = λ i. 0;
  complexes = λ i. (0, 0);
  iterates = false;
}

abbrev pub plain_head : Head
plain_head = record {
  address = 100;
  ob_type = 20;
  tp_flags = 0;
  supertypes = [];
  attrs = "__class__" ∷ [];
  callable = false;
  dict_instance = false;
  mro = some ((some (codes "builtins"), codes "object") ∷ []);
  class_module = none;
  class_name = none;
  long_value = pos 0;
  double_value = 0;
  complex_value = (0, 0);
  null_bytes = false;
  text = "";
  str = "";
  array = no_array;
  scalar_typenum = 0;
  byte_array = [];
  capsule = none;
}

abbrev pub atom : Head → PyObject
atom h = object h nil end

abbrev pub int_head : ℤ → Head
int_head z = record plain_head { ob_type = 10; long_value = z }

abbrev pub list_head : Head
list_head = record plain_head { ob_type = 14; tp_flags = 33554432 }

abbrev pub na_object : PyObject
na_object =
    atom
      (record plain_head { class_module = some "pandas._libs.missing"; class_name = some "NAType" })

abbrev pub globals : Globals
globals = record {
  python3 = true;
  have_numpy = true;
  py_none = 3;
  py_true = 1;
  py_false = 2;
  np_nan = 4;
  int_type = 10;
  float_type = 11;
  complex_type = 12;
  string_type = 13;
  list_type = 14;
  tuple_type = 15;
  dict_type = 16;
  byte_array_type = 17;
  array_type = 18;
  generic_type = 19;
  filter_classes = λ classes. classes;
  callable_as_function = λ f convert. 0;
  capsule_read = λ r. null;
}

abbrev pub plain_object : PyObject
plain_object = atom plain_head

abbrev pub make : Make
make = record {
  none_object = atom (record plain_head { address = 3 });
  object_at = λ a. atom (record plain_head { address = a });
  int_from_long = λ z. atom (int_head z);
  float_from_double = λ d. atom (record plain_head { ob_type = 11; double_value = d });
  complex_from_doubles = λ z. atom (record plain_head { ob_type = 12; complex_value = z });
  bool_from_long = λ z. atom (record plain_head { address = if int_nonzero z then 1 else 2 });
  unicode_from_string =
      λ s. atom (record plain_head { ob_type = 21; tp_flags = 268435456; text = s });
  string_from_string = λ s. atom (record plain_head { ob_type = 13; text = s });
  byte_array_from = λ bs. atom (record plain_head { ob_type = 17; byte_array = bs });
  list_of = λ items. object list_head items end;
  dict_new = atom (record plain_head { ob_type = 16 });
  dict_set_item_string = λ d name o. some d;
  array_new = λ a. some plain_object;
  array_set_objects = λ a items. a;
  has_set_base_object = true;
  set_base_object = λ a b. some a;
  assign_base = λ a b. a;
  capsule_new = λ x. plain_object;
  pointer_capsule = λ p x. plain_object;
  make_python_function = λ f convert name. ok plain_object;
  as_reference = λ x. err (stop "not an environment");
  r_to_py_generic = λ x convert. ok plain_object;
  sizeof_long = 8;
}

abbrev pub one_two : Sexp
one_two = integer no_attrs (pos 1 ∷ pos 2 ∷ [])

abbrev is_ascii : Bytes → Bool
is_ascii bytes = all_of (λ c. ltb c 128) bytes

-- ASCII, as a locale.
abbrev pub ascii : Locale
ascii = record {
  resize_error = "too long";
  create_error = "too long";
  no_buffer = (err (stop "no buffer"), 1);
  decode = λ bytes. if is_ascii bytes then some bytes else none;
  encode_char = λ c. if ltb c 128 then some (c ∷ []) else none;
}

abbrev typed : ℕ → ℕ → Head
typed address tp = record plain_head { address = address; ob_type = tp }

abbrev pub builders : Builders
builders = record {
  build_value = λ format.
      if str_eq format "z"
      then typed 3 20
      else if str_eq format "y"
      then typed 50 13
      else if str_eq format "[i]"
      then typed 51 14
      else if str_eq format "(i)"
      then typed 52 15
      else if str_eq format "{s:i}"
      then typed 53 16
      else typed 54 21;
  int_from_long = λ n. typed 60 10;
  long_from_long = λ n. typed 60 10;
  bool_from_long = λ n. if n == 0 then typed 5 22 else typed 4 22;
  float_zero = typed 61 11;
  complex_zero = typed 62 12;
  byte_array = typed 63 17;
}

abbrev pub rpytools : Rpytools
rpytools = record {
  imports = true;
  has_function = true;
  call_function = λ capsule name. some capsule;
}
