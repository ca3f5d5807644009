-- ===== src/Access/Modules.antt =====
-- The import of modules (python.cpp): `py_module_import`, `py_module_proxy_import` and
-- `py_list_submodules`. The module table is the list of its entries.
use pyreticulate.Base.{
  ap, ◌∙◌, any_of, arith, refl, ◌≡◌, Bool, true, false, not, ◌&&◌, List, [], ◌∷◌, ◌++◌, Option,
  none, some, if◌then◌else◌, is_some, drop, length,
}
use pyreticulate.Result.{Result, ok, err, stop}
use pyreticulate.Sexp.{PyRef}
use pyreticulate.PyObject.{Head, Globals, py_string_check, py_is_none}
use pyreticulate.Bytes.{Bytes, starts_with, find, starts_with-append, drop-append}
use pyreticulate.Interp.{Interp}
use pyreticulate.Access.{Answer, new_ref, throw_error, own_ref}

-- An entry: the name, its bytes, and the module.
pub record Entry : Type 0 where
  pub key : Head
  pub name : Bytes
  pub value : Head

module _ (g : Globals) where
  unfoldable pub py_module_import : Answer Head → Bool → Interp → Result PyRef × Interp
  unfolding throw_error own_ref
  py_module_import answer convert s =
      let (module_, s1) = new_ref answer s in
      elim module_ [ none ↦ throw_error s1 | some h ↦ own_ref g h convert s1 ]

  -- The loop over the module table.
  unfoldable pub py_list_submodules : Bytes → List Entry → List Bytes
  py_list_submodules name [] = []
  py_list_submodules name (e ∷ es) =
      let prefix = name ++ 46 ∷ [] in
      let submodule = drop (length prefix) e.name in
      let rest = py_list_submodules name es in
      if py_string_check g e.key
        && not (py_is_none g e.value)
        && starts_with prefix e.name
        && not (is_some (find 46 submodule))
      then submodule ∷ rest
      else rest

-- A proxy: the name of its module, until it is imported, and the object.
pub record Proxy : Type 0 where
  pub module_name : Option Bytes
  pub object : Option Head

unfoldable pub py_module_proxy_import :
    (Bytes → Answer Head) → Proxy → Interp → Result Proxy × Interp
unfolding throw_error
py_module_proxy_import import p s = elim p.module_name [
  | none ↦ (err (stop "Module proxy does not contain module name"), s)
  | some name ↦
      let (module_, s1) = new_ref (import name) s in
      elim module_ [
        | none ↦ throw_error s1
        | some h ↦ (ok (record { module_name = none; object = some h }), s1)
      ]
]

-- The entry of a submodule `sub` of `name`: its key has the type `Py_String`.
abbrev pub IsSubmodule : Globals → Bytes → Entry → Bytes → Type 0
IsSubmodule g name e sub =
    (py_string_check g e.key ≡ true)
    × (py_is_none g e.value ≡ false)
    × (e.name ≡ (name ++ 46 ∷ []) ++ sub)
    × (find 46 sub ≡ none)

-- The module table holds the submodules `subs`, in their order, and entries that are no submodules:
-- of other names, of submodules further down, and of names without a module.
pub data Lists (g : Globals) (name : Bytes) : List Entry → List Bytes → Type 0 where
  at_end : Lists g name [] []
  listed :
      {e : Entry} {es : List Entry} {sub : Bytes} {subs : List Bytes}
      → IsSubmodule g name e sub
      → Lists g name es subs
      → Lists g name (e ∷ es) (sub ∷ subs)
  elsewhere :
      {e : Entry} {es : List Entry} {subs : List Bytes}
      → starts_with (name ++ 46 ∷ []) e.name ≡ false
      → Lists g name es subs
      → Lists g name (e ∷ es) subs
  deeper :
      {e : Entry} {es : List Entry} {subs : List Bytes} (sub : Bytes)
      → e.name ≡ (name ++ 46 ∷ []) ++ sub
      → is_some (find 46 sub) ≡ true
      → Lists g name es subs
      → Lists g name (e ∷ es) subs
  no_module :
      {e : Entry} {es : List Entry} {subs : List Bytes}
      → py_is_none g e.value ≡ true
      → Lists g name es subs
      → Lists g name (e ∷ es) subs

-- The listing of submodules of a module gives those that the table holds, in the table's order.
pub py_list_submodules-Lists :
    (g : Globals) (name : Bytes) (es : List Entry) (subs : List Bytes)
    → Lists g name es subs
    → py_list_submodules g name es ≡ subs
unfolding py_list_submodules
py_list_submodules-Lists g name _ _ at_end = refl
py_list_submodules-Lists g name _ _ (listed {e} {sub = sub} (key, value, text, simple) l) =
    let prefix : Bytes = name ++ 46 ∷ [] in
    let starts = ap (starts_with prefix) text ∙ starts_with-append prefix sub in
    let rest = ap (drop (length prefix)) text ∙ drop-append prefix sub in
    ground (arith, key, value, starts, rest, simple, py_list_submodules-Lists g name _ _ l)
py_list_submodules-Lists g name _ _ (elsewhere h l) =
    ground (arith, h, py_list_submodules-Lists g name _ _ l)
py_list_submodules-Lists g name _ _ (deeper sub text dotted l) =
    let prefix : Bytes = name ++ 46 ∷ [] in
    let rest = ap (drop (length prefix)) text ∙ drop-append prefix sub in
    ground (arith, rest, dotted, py_list_submodules-Lists g name _ _ l)
py_list_submodules-Lists g name _ _ (no_module h l) =
    ground (arith, h, py_list_submodules-Lists g name _ _ l)

-- No submodule is listed if no key of the table has the type `Py_String`: as with Python 3, where that
-- is the type of bytes, and the keys are texts.
pub py_list_submodules-no_string :
    (g : Globals) (name : Bytes) (es : List Entry)
    → any_of (λ e. py_string_check g e.key) es ≡ false
    → py_list_submodules g name es ≡ []
unfolding py_list_submodules
py_list_submodules-no_string g name [] h = refl
py_list_submodules-no_string g name (e ∷ es) h =
    ground (arith, h, py_list_submodules-no_string g name es (ground (arith, h)))
