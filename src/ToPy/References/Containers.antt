-- ===== src/ToPy/References/Containers.antt =====
-- The references behind the loops of `r_to_py_cpp` (python.cpp) over the elements of a list.
use pyreticulate.Base.{
  ◌≡◌, arith, Bool, List, Option, none, some, inl, inr, Option-cases, String, if◌then◌else◌,
}
use pyreticulate.Result.{Result, ok, err, python_exception, ◌>>=◌}
use pyreticulate.Sexp.{Attrs, Sexp}
use pyreticulate.PyObject.{PyObject, Items, cons, Globals}
use pyreticulate.Interp.{Interp, take_ref, dec_ref, Holds}
use pyreticulate.ToPy.{Make, from_option, object_bit}
use pyreticulate.ToPy.References.{given_ref, filled_or_released, as_list, container_refs}
use pyreticulate.ToPy.References.Leaves.{IsOwned, given_ref-IsOwned}

-- What the list hands on: the reference to it, or none.
abbrev pub IsHandedOn : {A : Type 0} → Interp → Result A → Result A × Interp → Type 0
IsHandedOn s v r = (r.0 ≡ v) × Holds 0 s r.1

module _ (g : Globals) (m : Make) where
  pub filled-IsOwned :
      (s : Interp) (v : Result PyObject) (r : Result PyObject × Interp)
      → IsHandedOn (take_ref s) v r
      → IsOwned 1 s v (filled_or_released g m r)
  filled-IsOwned s v (err e, s1) (same, kept) = ground (arith, same, kept)
  filled-IsOwned s v (ok o, s1) (same, kept) = ground (arith, same, kept)

  pub as_list-IsHandedOn :
      (s : Interp) (v : Result Items) (r : Result Items × Interp)
      → IsHandedOn s v r
      → IsHandedOn s (v >>= λ items. ok (m.list_of items)) (as_list g m r)
  as_list-IsHandedOn s v (err e, s1) (same, kept) = ground (arith, same, kept)
  as_list-IsHandedOn s v (ok items, s1) (same, kept) = ground (arith, same, kept)

  pub container_refs-IsOwned :
      (a : Attrs) (items : Result Items) (dict : List String → Result PyObject)
      (elements : Interp → Result Items × Interp)
      (entries : List String → Interp → Result PyObject × Interp) (s : Interp)
      → IsHandedOn (take_ref s) items (elements (take_ref s))
      → ((names : List String) → IsHandedOn (take_ref s) (dict names) (entries names (take_ref s)))
      → IsOwned 1 s
          (elim a.names as (λ n. Result PyObject) [
            | some names ↦ dict names
            | none ↦ items >>= λ is. ok (m.list_of is)
          ])
          (container_refs g m a elements entries s)
  unfolding container_refs
  container_refs-IsOwned a items dict elements entries s listed filled =
      elim (Option-cases a.names) [
        | inl e ↦ ground (
          arith,
          e,
          filled-IsOwned s _ _
              (as_list-IsHandedOn (take_ref s) items (elements (take_ref s)) listed),
        )
        | inr (names, e) ↦
            ground
              (arith, e, filled-IsOwned s (dict names) (entries names (take_ref s)) (filled names))
      ]

module _ (g : Globals) (m : Make) where
  pub item-IsOwned :
      (x : Sexp) (convert : Bool) (v : Result PyObject) (own : Result PyObject × Interp)
      (s : Interp)
      → IsOwned 1 s v own
      → IsOwned 1 s
          (if object_bit x then m.r_to_py_generic x convert else v)
          (if object_bit x then given_ref (m.r_to_py_generic x convert) s else own)
  item-IsOwned x convert v own s owned =
      ground (arith, owned, given_ref-IsOwned (m.r_to_py_generic x convert) s)

pub list_step :
    (s : Interp) (v : Result PyObject) (item : Result PyObject × Interp) (vs : Result Items)
    (rest : Result Items × Interp)
    → IsOwned 1 s v item
    → IsHandedOn (dec_ref item.1) vs rest
    → IsHandedOn s
        (v >>= λ i. vs >>= λ is. ok (cons i is))
        (elim item.0 as (λ o. Result Items × Interp) [
          | err e ↦ (err e, item.1)
          | ok i ↦ (rest.0 >>= λ is. ok (cons i is), rest.1)
        ])
list_step s v (err e, s1) vs rest (same, kept) (same', kept') = ground (arith, same, kept)
list_step s v (ok i, s1) vs rest (same, kept) (same', kept') =
    ground (arith, same, kept, same', kept')

pub dict_step :
    (s : Interp) (v : Result PyObject) (item : Result PyObject × Interp)
    (set : PyObject → Option PyObject) (vs : PyObject → Result PyObject)
    (rest : PyObject → Result PyObject × Interp)
    → IsOwned 1 s v item
    → ((d : PyObject) → IsHandedOn (dec_ref item.1) (vs d) (rest d))
    → IsHandedOn s
        (v >>= λ i. from_option (set i) >>= λ d. vs d)
        (elim item.0 as (λ o. Result PyObject × Interp) [
          | err e ↦ (err e, item.1)
          | ok i ↦ elim (set i) as (λ o. Result PyObject × Interp) [
            | none ↦ (err python_exception, dec_ref item.1)
            | some d ↦ rest d
          ]
        ])
dict_step s v (err e, s1) set vs rest (same, kept) more = ground (arith, same, kept)
dict_step s v (ok i, s1) set vs rest (same, kept) more = elim (Option-cases (set i)) [
  | inl q ↦ ground (arith, q, same, kept)
  | inr (d, q) ↦ ground (arith, q, same, kept, more d)
]
