-- ===== src/Attributes/Types.antt =====
-- What `py_get_attr_types_impl` (python.cpp) leaves of the interpreter, and what it asks.
use pyreticulate.Base.{
  ℕ, ◌+◌, ◌≤◌, ◌≡◌, refl, ap, Bool, not, ◌&&◌, List, [], ◌∷◌, none, arith, length, suc,
  if◌then◌else◌,
}
use pyreticulate.Result.{Result, ok, err, >>=-eq-ok}
use pyreticulate.PyObject.{Globals}
use pyreticulate.Interp.{Interp}
use pyreticulate.Attributes.{
  Attr, TypeObjects, is_property, attr_step, attr_types, join_types, py_get_attr_types_impl,
}

-- The attributes that may be looked up on the object: all, or those that are no properties.
abbrev pub count_asked : Globals → TypeObjects → Bool → List Attr → ℕ
count_asked g types resolve [] = 0
count_asked g types resolve (a ∷ as_) =
    (if not resolve && is_property g types a.of_class then 0 else 1)
    + count_asked g types resolve as_

step_asked :
    (g : Globals) (types : TypeObjects) (resolve : Bool) (a : Attr) (s : Interp × ℕ)
    → (attr_step g types resolve a s).1.1
      ≡ s.1 + (if not resolve && is_property g types a.of_class then 0 else 1)
unfolding attr_step
step_asked g types resolve a s = ground arith

join_bound :
    (t : Result ℕ) (s : Interp × ℕ) (rest : Result (List ℕ) × (Interp × ℕ)) (n : ℕ)
    → rest.1.1 ≤ s.1 + n
    → (join_types t s rest).1.1 ≤ s.1 + n
join_bound (err e) s rest n h = omega arith
join_bound (ok k) s rest n h = h

join_exact :
    (t : Result ℕ) (s : Interp × ℕ) (rest : Result (List ℕ) × (Interp × ℕ)) (ts : List ℕ)
    → (join_types t s rest).0 ≡ ok ts
    → (us : List ℕ) × (rest.0 ≡ ok us)
      × (length ts ≡ suc (length us))
      × ((join_types t s rest).1 ≡ rest.1)
join_exact (err e) s rest ts h = ground arith
join_exact (ok k) s rest ts h =
    let (us, e, h1) = >>=-eq-ok rest.0 _ h in (us, e, ground arith, refl)

asked_bound :
    (g : Globals) (types : TypeObjects) (resolve : Bool) (as_ : List Attr) (s : Interp × ℕ)
    → (attr_types g types resolve as_ s).1.1 ≤ s.1 + count_asked g types resolve as_
unfolding attr_types
asked_bound g types resolve [] s = omega arith
asked_bound g types resolve (a ∷ as_) s =
    let (t, s1) = attr_step g types resolve a s in
    let rest = asked_bound g types resolve as_ s1 in
    let joined = join_bound t s1 (attr_types g types resolve as_ s1) _ rest in
    let asked = step_asked g types resolve a s in omega (arith, joined, asked)

asked_exact :
    (g : Globals) (types : TypeObjects) (resolve : Bool) (as_ : List Attr) (s : Interp × ℕ)
    (ts : List ℕ)
    → (attr_types g types resolve as_ s).0 ≡ ok ts
    → ((attr_types g types resolve as_ s).1.1 ≡ s.1 + count_asked g types resolve as_)
      × (length ts ≡ length as_)
unfolding attr_types
asked_exact g types resolve [] s ts e = ground arith
asked_exact g types resolve (a ∷ as_) s ts e =
    let (t, s1) = attr_step g types resolve a s in
    let (us, e1, longer, same) = join_exact t s1 (attr_types g types resolve as_ s1) ts e in
    let (asked_rest, lengths) = asked_exact g types resolve as_ s1 us e1 in
    let asked = step_asked g types resolve a s in
    let counts = ap (λ r. r.1) same in
    (omega (arith, counts, asked, asked_rest), omega (arith, longer, lengths))

-- The look-up of the kinds of attributes leaves the error indicator as it was, on every path, also
-- when it throws. It asks the object for no more attributes than it may: without
-- `resolve_properties`, those that are no properties. If it succeeds it has asked for each of them
-- once, and gives a kind for every name.
pub py_get_attr_types_impl_lem :
    (g : Globals) (types : TypeObjects) (resolve : Bool) (as_ : List Attr) (s : Interp)
    → let r = py_get_attr_types_impl g types resolve as_ s in
      (r.1.0.error ≡ s.error)
      × (r.1.1 ≤ count_asked g types resolve as_)
      × ((ts : List ℕ)
          → r.0 ≡ ok ts
          → (r.1.1 ≡ count_asked g types resolve as_) × (length ts ≡ length as_))
unfolding py_get_attr_types_impl
py_get_attr_types_impl_lem g types resolve as_ s =
    let s0 : Interp × ℕ = (record s { error = none }, 0) in
    (
      refl,
      omega (arith, asked_bound g types resolve as_ s0),
      λ ts e.
          let (asked, lengths) = asked_exact g types resolve as_ s0 ts e in (omega arith, lengths),
    )
