-- ===== src/ClassNames.antt =====
-- The R classes of a Python object: `as_r_class`, `py_class_names` and `py_ref` of python.cpp.
pub mod Builtin
use pyreticulate.Base.{
  ℕ, Bool, true, false, ◌||◌, List, [], ◌∷◌, ◌++◌, map, Option, none, some, if◌then◌else◌, length,
  drop, any_of,
}
use pyreticulate.Bytes.{Bytes, codes, starts_with, bytes_eq}
use pyreticulate.Result.{Result, ok, err, python_exception, ◌>>=◌}
use pyreticulate.Sexp.{PyRef}
use pyreticulate.PyObject.{Head, Globals, has_attr}

abbrev pub python_builtin : Bytes
python_builtin = codes "python.builtin"

abbrev pub builtin_object : Bytes
builtin_object = codes "python.builtin.object"

-- if (module.find(old) == 0) module.replace(0, old.length(), "python.builtin")
unfoldable pub rename_builtin : Bytes → Bytes → Bytes
rename_builtin old s = if starts_with old s then python_builtin ++ drop (length old) s else s

-- From `__module__`, where the class has one, and `__name__`.
unfoldable pub as_r_class : Option Bytes → Bytes → Bytes
unfolding rename_builtin
as_r_class none name = codes "python.builtin." ++ name
as_r_class (some m) name =
    rename_builtin (codes "builtins") (rename_builtin (codes "__builtin__") (m ++ codes "."))
    ++ name

unfoldable pub py_class_names : Head → Result (List Bytes)
unfolding as_r_class
py_class_names h = elim h.mro [
  | none ↦ err python_exception
  | some classes ↦ ok (map (λ (c : Option Bytes × Bytes). as_r_class c.0 c.1) classes)
]

-- add python.builtin.object if we don't already have it
unfoldable pub ensure_builtin : List Bytes → List Bytes
ensure_builtin classes =
    if any_of (λ c. bytes_eq c builtin_object) classes
    then classes
    else classes ++ builtin_object ∷ []

-- The class attribute that `py_ref` sets, before the filter.
unfoldable pub ref_classes : Head → Bytes → Result (List Bytes)
unfolding py_class_names ensure_builtin
ref_classes h extra =
    let own : List Bytes = if bytes_eq extra [] then [] else extra ∷ [] in
    let all_names = py_class_names h >>= λ names. ok (ensure_builtin (own ++ names)) in
    if has_attr h "__class__" then all_names else ok (ensure_builtin own)

unfoldable pub py_ref : Globals → Head → Bool → Bytes → Result PyRef
unfolding ref_classes
py_ref g h convert extra = do
  classes ← ref_classes h extra
  ok (record { address = h.address; convert = convert; classes = g.filter_classes classes })
