-- ===== src/ToR/References.antt =====
-- The references that the element loops of `py_to_r` (python.cpp) take: for a subclass of list, whose
-- items come from PyObject_GetItem, and for an object that passes for a dictionary, whose items come
-- from PyMapping_Items. PyObject_Str succeeds.
use pyreticulate.Base.{
  ℕ, ◌+◌, ◌≡◌, refl, Bool, true, false, ◌&&◌, List, [], ◌∷◌, arith, String, if◌then◌else◌, ap,
}
use pyreticulate.Result.{Result, ok, err, ◌>>=◌, is_ok}
use pyreticulate.Sexp.{Sexps, snil, scons}
use pyreticulate.PyObject.{Items, nil, cons, Entries, end, entry, Globals, is_python_str}
use pyreticulate.ToR.{py_to_r, entries_to_r, key_name}
use pyreticulate.Interp.{Interp, take_ref, dec_ref, Holds}

-- The loop for a subclass of list: the index is released, the item is not.
unfoldable pub subclass_loop : Globals → Items → Bool → Interp → Result Sexps × Interp
subclass_loop g nil convert s = (ok snil, s)
subclass_loop g (cons x xs) convert s =
    let s1 = take_ref (take_ref s) in
    let v = py_to_r g x convert in
    let rest = subclass_loop g xs convert (dec_ref s1) in
    (v >>= λ u. rest.0 >>= λ us. ok (scons u us), if is_ok v then rest.1 else s1)

-- The text of a key: a new object is made of a key that is no text.
abbrev pub after_name : Result Bool → Interp → Interp
after_name (ok false) s = dec_ref (take_ref s)
after_name r s = s

-- The loop over the pairs of a mapping, each of which is released when its scope is left.
unfoldable pub mapping_loop :
    Globals → Entries → Bool → Interp → Result (List String × Sexps) × Interp
mapping_loop g end convert s = (ok ([], snil), s)
mapping_loop g (entry k x es) convert s =
    let s1 = dec_ref (after_name (is_python_str g k) (take_ref s)) in
    let name = key_name g k in
    let v = py_to_r g x convert in
    let rest = mapping_loop g es convert s1 in
    (
      name >>= λ n. v >>= λ u. rest.0 >>= λ us. ok (n ∷ us.0, scons u us.1),
      if is_ok name && is_ok v then rest.1 else s1,
    )

-- With the list of the pairs.
unfoldable pub mapping_to_r :
    Globals → Entries → Bool → Interp → Result (List String × Sexps) × Interp
unfolding mapping_loop
mapping_to_r g es convert s =
    let (r, s1) = mapping_loop g es convert (take_ref s) in (r, dec_ref s1)

-- The references that the loop for a subclass of list keeps: one for each item that is converted, and
-- for one that cannot be, that to its index as well.
abbrev pub unreleased : Globals → Items → Bool → ℕ
unreleased g nil convert = 0
unreleased g (cons x xs) convert =
    let rest = unreleased g xs convert in if is_ok (py_to_r g x convert) then rest + 1 else 2

pub after_name_lem :
    (r : Result Bool) (s : Interp) → Holds 0 s (after_name r s) × ((after_name r s).error ≡ s.error)
after_name_lem (ok false) s = (omega arith, refl)
after_name_lem (ok true) s = (omega arith, refl)
after_name_lem (err e) s = (omega arith, refl)

mapping_loop-entries_to_r :
    (g : Globals) (es : Entries) (convert : Bool) (s : Interp)
    → let r = mapping_loop g es convert s in
      (r.0 ≡ entries_to_r g es convert) × Holds 0 s r.1 × (r.1.error ≡ s.error)
unfolding mapping_loop entries_to_r
mapping_loop-entries_to_r g end convert s = (refl, omega arith, refl)
mapping_loop-entries_to_r g (entry k x es) convert s =
    let named = after_name_lem (is_python_str g k) (take_ref s) in
    let (same, kept, error) =
      mapping_loop-entries_to_r g es convert
        (dec_ref (after_name (is_python_str g k) (take_ref s))) in
    (
      ap
          (λ rest. key_name g k >>= λ n.
            py_to_r g x convert >>= λ u. rest >>= λ us. ok (n ∷ us.0, scons u us.1))
          same,
      ground (arith, kept, named.0),
      ground (arith, error, named.1),
    )

-- The conversion of an object that passes for a dictionary gives what the conversion of its entries
-- gives, and gives back every reference, on every path.
pub mapping_to_r-entries_to_r :
    (g : Globals) (es : Entries) (convert : Bool) (s : Interp)
    → let r = mapping_to_r g es convert s in
      (r.0 ≡ entries_to_r g es convert) × Holds 0 s r.1 × (r.1.error ≡ s.error)
unfolding mapping_to_r
mapping_to_r-entries_to_r g es convert s =
    let (same, kept, error) = mapping_loop-entries_to_r g es convert (take_ref s) in
    (same, omega (arith, kept), error)
