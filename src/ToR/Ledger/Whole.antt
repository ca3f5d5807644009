-- ===== src/ToR/Ledger/Whole.antt =====
-- The references of the whole of `py_to_r` (python.cpp).
use pyreticulate.Base.{◌≡◌, refl, arith, ◌&&◌, Bool, true, List, ◌∷◌, String}
use pyreticulate.Result.{Result, ok, err, ◌>>=◌}
use pyreticulate.Sexp.{Sexp, Sexps, scons}
use pyreticulate.PyObject.{
  PyObject, object, Items, nil, cons, Entries, end, entry, heads, Globals, is_python_str,
}
use pyreticulate.ToR.{py_to_r, items_to_r, entries_to_r, key_name}
use pyreticulate.ToR.References.{after_name, after_name_lem}
use pyreticulate.Interp.{Interp, take_ref, dec_ref, Holds}
use pyreticulate.ToPy.References.Containers.{IsHandedOn}
use pyreticulate.ToR.Ledger.{
  to_r_ledger, elements_ledger, subclass_ledger, values_ledger, pairs_ledger,
}
use pyreticulate.ToR.Ledger.Objects.{is_plain, object_ledger-IsHandedOn}

-- No instance of a subclass of list is in the object.
unfoldable mutual
  pub all_plain : Globals → PyObject → Bool
  all_plain g (object h items entries) =
      is_plain g h && (items_plain g items && entries_plain g entries)

  pub items_plain : Globals → Items → Bool
  items_plain g nil = true
  items_plain g (cons x xs) = all_plain g x && items_plain g xs

  pub entries_plain : Globals → Entries → Bool
  entries_plain g end = true
  entries_plain g (entry k x es) = all_plain g x && entries_plain g es

element_step :
    (s : Interp) (v : Result Sexp) (own : Result Sexp × Interp) (vs : Result Sexps)
    (rest : Result Sexps × Interp)
    → IsHandedOn s v own
    → IsHandedOn own.1 vs rest
    → IsHandedOn s
        (v >>= λ u. vs >>= λ us. ok (scons u us))
        (elim own.0 as (λ o. Result Sexps × Interp) [
          | err e ↦ (err e, own.1)
          | ok u ↦ (rest.0 >>= λ us. ok (scons u us), rest.1)
        ])
element_step s v (err e, s1) vs rest (same, kept) (same', kept') = ground (arith, same, kept)
element_step s v (ok u, s1) vs rest (same, kept) (same', kept') =
    ground (arith, same, kept, same', kept')

-- With a state `left` that the round leaves when the key cannot be read, and `right` when the value
-- cannot be converted.
entry_step :
    (s left right : Interp) (n : Result String) (v : Result Sexp) (own : Result Sexp × Interp)
    (vs : Result (List String × Sexps)) (rest : Result (List String × Sexps) × Interp)
    → Holds 0 s left
    → Holds 0 s right
    → own.0 ≡ v
    → IsHandedOn right vs rest
    → IsHandedOn s
        (n >>= λ k. v >>= λ u. vs >>= λ us. ok (k ∷ us.0, scons u us.1))
        (elim n as (λ o. Result (List String × Sexps) × Interp) [
          | err e ↦ (err e, left)
          | ok k ↦ elim own.0 as (λ o. Result (List String × Sexps) × Interp) [
            | err e ↦ (err e, right)
            | ok u ↦ (rest.0 >>= λ us. ok (k ∷ us.0, scons u us.1), rest.1)
          ]
        ])
entry_step s left right (err e) v own vs rest hl hr same (same', kept') = (refl, hl)
entry_step s left right (ok k) v (err e, s1) vs rest hl hr same (same', kept') =
    ground (arith, same, hr)
entry_step s left right (ok k) v (ok u, s1) vs rest hl hr same (same', kept') =
    ground (arith, same, hr, same', kept')

and_left : (a b : Bool) → a && b ≡ true → a ≡ true
and_left a b h = ground (arith, h)

and_right : (a b : Bool) → a && b ≡ true → b ≡ true
and_right a b h = ground (arith, h)

mutual
  unfolding to_r_ledger py_to_r elements_ledger items_to_r values_ledger pairs_ledger entries_to_r
      all_plain items_plain entries_plain

  object-IsHandedOn :
      (g : Globals) (x : PyObject) (convert : Bool) (s : Interp)
      → all_plain g x ≡ true
      → IsHandedOn s (py_to_r g x convert) (to_r_ledger g x convert s)
  object-IsHandedOn g (object h items entries) convert s plain =
      let own = and_left (is_plain g h) (items_plain g items && entries_plain g entries) plain in
      let both = and_right (is_plain g h) (items_plain g items && entries_plain g entries) plain in
      let listed = and_left (items_plain g items) (entries_plain g entries) both in
      let mapped = and_right (items_plain g items) (entries_plain g entries) both in
      ground (
        arith,
        object_ledger-IsHandedOn g h (heads items) (items_to_r g items convert)
            (entries_to_r g entries convert) (λ t. elements_ledger g items convert t)
            (λ t. subclass_ledger g items convert t) (λ t. values_ledger g entries convert t)
            (λ t. pairs_ledger g entries convert t) convert s own
            (λ t. elements-IsHandedOn g items convert t listed)
            (λ t. values-IsHandedOn g entries convert t mapped)
            (λ t. pairs-IsHandedOn g entries convert t mapped),
      )

  elements-IsHandedOn :
      (g : Globals) (xs : Items) (convert : Bool) (s : Interp)
      → items_plain g xs ≡ true
      → IsHandedOn s (items_to_r g xs convert) (elements_ledger g xs convert s)
  elements-IsHandedOn g nil convert s plain = (refl, omega arith)
  elements-IsHandedOn g (cons x xs) convert s plain =
      let own = to_r_ledger g x convert s in
      element_step s (py_to_r g x convert) own (items_to_r g xs convert)
        (elements_ledger g xs convert own.1)
        (object-IsHandedOn g x convert s (and_left (all_plain g x) (items_plain g xs) plain))
        (elements-IsHandedOn g xs convert own.1
          (and_right (all_plain g x) (items_plain g xs) plain))

  values-IsHandedOn :
      (g : Globals) (es : Entries) (convert : Bool) (s : Interp)
      → entries_plain g es ≡ true
      → IsHandedOn s (entries_to_r g es convert) (values_ledger g es convert s)
  values-IsHandedOn g end convert s plain = (refl, omega arith)
  values-IsHandedOn g (entry k x es) convert s plain =
      let s0 = after_name (is_python_str g k) s in
      let own = to_r_ledger g x convert s0 in
      let named = (after_name_lem (is_python_str g k) s).0 in
      let (same, kept) =
        object-IsHandedOn g x convert s0 (and_left (all_plain g x) (entries_plain g es) plain) in
      entry_step s s0 own.1 (key_name g k) (py_to_r g x convert) own (entries_to_r g es convert)
        (values_ledger g es convert own.1) named (omega (arith, named, kept)) same
        (values-IsHandedOn g es convert own.1
          (and_right (all_plain g x) (entries_plain g es) plain))

  pairs-IsHandedOn :
      (g : Globals) (es : Entries) (convert : Bool) (s : Interp)
      → entries_plain g es ≡ true
      → IsHandedOn s (entries_to_r g es convert) (pairs_ledger g es convert s)
  pairs-IsHandedOn g end convert s plain = (refl, omega arith)
  pairs-IsHandedOn g (entry k x es) convert s plain =
      let s0 = after_name (is_python_str g k) (take_ref s) in
      let own = to_r_ledger g x convert s0 in
      let named = (after_name_lem (is_python_str g k) (take_ref s)).0 in
      let (same, kept) =
        object-IsHandedOn g x convert s0 (and_left (all_plain g x) (entries_plain g es) plain) in
      entry_step s (dec_ref s0) (dec_ref own.1) (key_name g k) (py_to_r g x convert) own
        (entries_to_r g es convert) (pairs_ledger g es convert (dec_ref own.1))
        (omega (arith, named)) (omega (arith, named, kept)) same
        (pairs-IsHandedOn g es convert (dec_ref own.1)
          (and_right (all_plain g x) (entries_plain g es) plain))

-- The conversion to R of an object that holds no instance of a subclass of list, at any depth: the
-- result is that of `py_to_r`, and every reference that is taken on the way is given back or handed to
-- R, on every branch, whether the conversion returns or throws.
pub to_r_ledger-py_to_r :
    (g : Globals) (x : PyObject) (convert : Bool) (s : Interp)
    → all_plain g x ≡ true
    → let r = to_r_ledger g x convert s in (r.0 ≡ py_to_r g x convert) × Holds 0 s r.1
to_r_ledger-py_to_r g x convert s plain = object-IsHandedOn g x convert s plain
