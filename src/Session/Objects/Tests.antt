-- ===== src/Session/Objects/Tests.antt =====
-- What the type tests of libpython.h answer once `initialize_type_objects` (libpython.cpp) has run.
use pyreticulate.Base.{
  ℕ, ◌≡◌, refl, arith, ◌==◌, ◌||◌, Bool, true, false, List, [], ◌∷◌, any_of, all_of, if◌then◌else◌,
}
use pyreticulate.Bytes.{Bytes}
use pyreticulate.PyObject.{
  Head, Globals, py_is_none, py_bool_check, py_int_check, py_string_check, py_list_check_exact,
  py_tuple_check_exact, py_dict_check_exact,
}
use pyreticulate.Access.Modules.{Entry, py_list_submodules, py_list_submodules-no_string}
use pyreticulate.Session.Objects.{Builders, initialize_type_objects, with_type_objects}

-- The addresses of CPython's singletons and built-in types: `str` is the type of its literals.
pub record Builtins : Type 0 where
  pub none_ : ℕ
  pub true_ : ℕ
  pub false_ : ℕ
  pub str : ℕ
  pub bytes : ℕ
  pub int_ : ℕ
  pub list : ℕ
  pub tuple : ℕ
  pub dict : ℕ

-- What CPython says of the functions.
pub record IsCpython (b : Builders) (t : Builtins) : Type 0 where
  pub none_value : (b.build_value "z").address ≡ t.none_
  pub str_value : (b.build_value "s").ob_type ≡ t.str
  pub bytes_value : (b.build_value "y").ob_type ≡ t.bytes
  pub int_value : (b.int_from_long 1024).ob_type ≡ t.int_
  pub true_value : (b.bool_from_long 1).address ≡ t.true_
  pub false_value : (b.bool_from_long 0).address ≡ t.false_
  pub list_value : (b.build_value "[i]").ob_type ≡ t.list
  pub tuple_value : (b.build_value "(i)").ob_type ≡ t.tuple
  pub dict_value : (b.build_value "{s:i}").ob_type ≡ t.dict

-- The tests read the built-in types and singletons that their names say, but for PyString_Check: with
-- Python 3 it is the test for bytes, and not for texts.
pub initialize_type_objects-checks :
    (b : Builders) (t : Builtins) (python3 : Bool) (g0 : Globals)
    → IsCpython b t
    → (h : Head)
    → let g = with_type_objects (initialize_type_objects b python3) g0 in
      (py_is_none g h ≡ (h.address == t.none_))
      × (py_bool_check g h ≡ ((h.address == t.false_) || (h.address == t.true_)))
      × (py_int_check g h ≡ (h.ob_type == t.int_))
      × (py_list_check_exact g h ≡ (h.ob_type == t.list))
      × (py_tuple_check_exact g h ≡ (h.ob_type == t.tuple))
      × (py_dict_check_exact g h ≡ (h.ob_type == t.dict))
      × (py_string_check g h ≡ (h.ob_type == (if python3 then t.bytes else t.str)))
unfolding initialize_type_objects with_type_objects
initialize_type_objects-checks b t python3 g0 c h = ground (
  arith, c.none_value, c.true_value, c.false_value, c.int_value, c.list_value, c.tuple_value,
  c.dict_value, c.str_value, c.bytes_value,
)

no_key-checks :
    (g : Globals) (str : ℕ) (es : List Entry)
    → (g.string_type == str) ≡ false
    → all_of (λ e. e.key.ob_type == str) es ≡ true
    → any_of (λ e. py_string_check g e.key) es ≡ false
no_key-checks g str [] d h = refl
no_key-checks g str (e ∷ es) d h =
    ground (arith, d, h, no_key-checks g str es d (ground (arith, h)))

-- With Python 3 no submodule is ever listed: the names in the module table are texts, and their test is
-- the one for bytes.
pub py_list_submodules-python3 :
    (b : Builders) (t : Builtins) (g0 : Globals) (name : Bytes) (es : List Entry)
    → IsCpython b t
    → (t.bytes == t.str) ≡ false
    → all_of (λ e. e.key.ob_type == t.str) es ≡ true
    → py_list_submodules (with_type_objects (initialize_type_objects b true) g0) name es ≡ []
unfolding initialize_type_objects with_type_objects
py_list_submodules-python3 b t g0 name es c d texts =
    let g = with_type_objects (initialize_type_objects b true) g0 in
    py_list_submodules-no_string g name es
      (no_key-checks g t.str es (ground (arith, c.bytes_value, d)) texts)
