-- ===== src/ClassNames/Builtin.antt =====
-- What `as_r_class` and `py_ref` (python.cpp) make of a Python class.
use pyreticulate.Base.{
  ◌≡◌, refl, ◌||◌, Bool, true, false, List, [], ◌∷◌, ◌++◌, Option, none, some, ◌⊎◌, inl, inr,
  if◌then◌else◌, any_of, arith, map, Bool-cases,
}
use pyreticulate.Bytes.{Bytes, codes, starts_with, bytes_eq}
use pyreticulate.Result.{ok, err, python_exception}
use pyreticulate.PyObject.{Head, has_attr}
use pyreticulate.ClassNames.{
  ensure_builtin, py_class_names, builtin_object, as_r_class, ref_classes,
}

any_of-append :
    (p : Bytes → Bool) (xs ys : List Bytes) → any_of p (xs ++ ys) ≡ (any_of p xs || any_of p ys)
any_of-append p [] ys = refl
any_of-append p (x ∷ xs) ys = ground (arith, any_of-append p xs ys)

-- Python 3's and Python 2's module of builtins and a class without a module give one and the same
-- R class; and a class of a module whose name, with the dot behind it, begins with neither `builtins`
-- nor `__builtin__` keeps the name of its module.
pub as_r_class_lem :
    (m name : Bytes)
    → (as_r_class (some (codes "builtins")) name ≡ as_r_class none name)
      × (as_r_class (some (codes "__builtin__")) name ≡ as_r_class none name)
      × (starts_with (codes "builtins") (m ++ codes ".") ≡ false
          → starts_with (codes "__builtin__") (m ++ codes ".") ≡ false
          → as_r_class (some m) name ≡ (m ++ codes ".") ++ name)
unfolding as_r_class
as_r_class_lem m name = (refl, refl, λ p q. rw (q, p))

ensure_builtin-present :
    (xs : List Bytes) → any_of (λ d. bytes_eq d builtin_object) (ensure_builtin xs) ≡ true
unfolding ensure_builtin
ensure_builtin-present xs = elim (Bool-cases (any_of (λ d. bytes_eq d builtin_object) xs)) [
  | inl e ↦ rw e e
  | inr e ↦
      rw e (rw (any_of-append (λ d. bytes_eq d builtin_object) xs (builtin_object ∷ []), e) refl)
]

-- The classes that `py_ref` hands to the filter always hold `python.builtin.object`, once it gets
-- that far: it fails only for an object with a class whose `inspect.getmro` fails.
pub ref_classes-builtin_object :
    (h : Head) (extra : Bytes)
    → (ref_classes h extra ≡ err python_exception)
        × (has_attr h "__class__" ≡ true)
        × (h.mro ≡ none)
      ⊎ ((classes : List Bytes) × (ref_classes h extra ≡ ok classes)
          × (any_of (λ c. bytes_eq c builtin_object) classes ≡ true))
unfolding ref_classes py_class_names
ref_classes-builtin_object h extra = by_class (has_attr h "__class__") h.mro refl refl
  where
    own : List Bytes
    own = if bytes_eq extra [] then [] else extra ∷ []

    by_class :
        (b : Bool) (m : Option (List (Option Bytes × Bytes)))
        → has_attr h "__class__" ≡ b
        → h.mro ≡ m
        → (ref_classes h extra ≡ err python_exception)
            × (has_attr h "__class__" ≡ true)
            × (h.mro ≡ none)
          ⊎ ((classes : List Bytes) × (ref_classes h extra ≡ ok classes)
              × (any_of (λ c. bytes_eq c builtin_object) classes ≡ true))
    by_class true none e f = inl (rw (e, f), e, f)
    by_class true (some cs) e f =
        let names = own ++ map (λ (c : Option Bytes × Bytes). as_r_class c.0 c.1) cs in
        inr (ensure_builtin names, rw (e, f), ensure_builtin-present names)
    by_class false m e f = inr (ensure_builtin own, rw e, ensure_builtin-present own)
