-- ===== src/ToR/Ledger/Kept.antt =====
-- The references behind the branches of `py_to_r` (python.cpp), given what the loops take.
use pyreticulate.Base.{
  ℕ, refl, ap, arith, List, [], ◌∷◌, some, length, ◌==◌, if◌then◌else◌, inl, inr, length, ◌==◌,
}
use pyreticulate.Result.{Result, ok, ◌>>=◌}
use pyreticulate.Sexp.{
  SexpType, lglsxp, intsxp, realsxp, cplxsxp, strsxp, no_attrs, Attrs, vec, Sexps,
}
use pyreticulate.PyObject.{Array, Head, Globals, scalar_list_type}
use pyreticulate.TypeNum.{narrow_array_typenum}
use pyreticulate.ToR.{list_to_r, scalars_to_r, array_to_r, fill_array}
use pyreticulate.Interp.{Interp, take_ref, dec_ref, Holds}
use pyreticulate.ToPy.References.Leaves.{Result-cases}
use pyreticulate.ToPy.References.Containers.{IsHandedOn}
use pyreticulate.ToR.Ledger.{
  after_text, after_texts, after_strings, after_rounds, scalars_ledger, list_ledger, texts_ledger,
  objects_ledger, fill_ledger, array_ledger, after_scalar, after_opaque,
}

module _ (g : Globals) where
  pub after_text-Holds : (h : Head) (s : Interp) → Holds 0 s (after_text g h s)
  after_text-Holds h s = ground arith

  after_texts-Holds : (hs : List Head) (s : Interp) → Holds 0 s (after_texts g hs s)
  after_texts-Holds [] s = omega arith
  after_texts-Holds (h ∷ hs) s =
      omega (arith, after_text-Holds h s, after_texts-Holds hs (after_text g h s))

  after_strings-Holds : (hs : List Head) (s : Interp) → Holds 0 s (after_strings g hs s)
  after_strings-Holds [] s = omega arith
  after_strings-Holds (h ∷ hs) s = ground (
    arith,
    after_text-Holds h s,
    after_strings-Holds hs s,
    after_strings-Holds hs (after_text g h s),
  )

  after_rounds-Holds : (hs : List Head) (s : Interp) → Holds 0 s (after_rounds g hs s)
  after_rounds-Holds [] s = omega arith
  after_rounds-Holds (h ∷ hs) s =
      let s1 = take_ref (take_ref s) in
      ground (
        arith,
        after_text-Holds h s1,
        after_rounds-Holds hs (dec_ref (dec_ref s1)),
        after_rounds-Holds hs (dec_ref (dec_ref (after_text g h s1))),
      )

  scalars_ledger-IsHandedOn :
      (t : SexpType) (items : List Head) (v : Result Sexps)
      (elements : Interp → Result Sexps × Interp) (s : Interp)
      → IsHandedOn s v (elements s)
      → IsHandedOn s (scalars_to_r g t items v) (scalars_ledger g t items elements s)
  unfolding scalars_to_r scalars_ledger
  scalars_ledger-IsHandedOn realsxp items v elements s h = (refl, omega arith)
  scalars_ledger-IsHandedOn intsxp items v elements s h = (refl, omega arith)
  scalars_ledger-IsHandedOn cplxsxp items v elements s h = (refl, omega arith)
  scalars_ledger-IsHandedOn lglsxp items v elements s h = (refl, omega arith)
  scalars_ledger-IsHandedOn strsxp items v elements s h = (refl, after_texts-Holds items s)
  scalars_ledger-IsHandedOn _ items v elements s (same, kept) =
      (ap (λ r. r >>= λ vs. ok (vec no_attrs vs)) same, kept)

  pub list_ledger-IsHandedOn :
      (items : List Head) (v : Result Sexps) (elements : Interp → Result Sexps × Interp)
      (s : Interp)
      → IsHandedOn s v (elements s)
      → IsHandedOn s (list_to_r g items v) (list_ledger g items elements s)
  unfolding list_to_r list_ledger
  list_ledger-IsHandedOn items v elements s h = elim (Result-cases (scalar_list_type g items)) [
    | inl (e, p) ↦ ground (arith, p)
    | inr (t, p) ↦ ground (arith, p, scalars_ledger-IsHandedOn t items v elements s h)
  ]

  fill_ledger-IsHandedOn :
      (t : ℕ) (a : Attrs) (array : Array) (items : List Head) (v : Result Sexps)
      (elements : Interp → Result Sexps × Interp) (s : Interp)
      → IsHandedOn s v (elements s)
      → IsHandedOn s (fill_array g t a array items v) (fill_ledger g t a array items elements s)
  unfolding fill_array fill_ledger texts_ledger objects_ledger
  fill_ledger-IsHandedOn t a array items v elements s h = ground (
    arith,
    h,
    after_strings-Holds items s,
    after_rounds-Holds items (take_ref (dec_ref (take_ref (take_ref s)))),
  )

  pub array_ledger-IsHandedOn :
      (array : Array) (items : List Head) (v : Result Sexps)
      (elements : Interp → Result Sexps × Interp) (s : Interp)
      → IsHandedOn (take_ref (dec_ref (take_ref s))) v (elements (take_ref (dec_ref (take_ref s))))
      → IsHandedOn s (array_to_r g array items v) (array_ledger g array items elements s)
  unfolding array_to_r array_ledger
  array_ledger-IsHandedOn array items v elements s h =
      let a : Attrs = record no_attrs {
        dim = some (if length array.dims == 0 then 1 ∷ [] else array.dims);
      } in
      elim (Result-cases (narrow_array_typenum array.typenum)) [
        | inl (e, p) ↦ ground (arith, p)
        | inr (t, p) ↦ ground (
          arith,
          p,
          fill_ledger-IsHandedOn t a array items v elements (take_ref (dec_ref (take_ref s))) h,
        )
      ]

  pub after_scalar-Holds : (h : Head) (s : Interp) → Holds 0 s (after_scalar g h s)
  after_scalar-Holds h s = ground arith

  pub after_opaque-Holds : (h : Head) (s : Interp) → Holds 0 s (after_opaque g h s)
  after_opaque-Holds h s = ground arith
