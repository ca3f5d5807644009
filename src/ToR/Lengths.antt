-- ===== src/ToR/Lengths.antt =====
-- `py_to_r` (python.cpp) keeps the number and the order of the elements.
use pyreticulate.Base.{
  ℕ, suc, ◌≡◌, refl, Bool, true, false, not, ◌&&◌, List, [], ◌∷◌, String, length, map, ap, sym, ◌∙◌,
}
use pyreticulate.Result.{Result, ok, err, >>=-eq-ok}
use pyreticulate.Sexp.{
  nilsxp, realsxp, intsxp, cplxsxp, lglsxp, strsxp, vec, no_attrs, SexpType, nilsxp, no_attrs, Sexp,
  null, logical, integer, numeric, cplx, character, raw, vec, Sexps, snil, size,
}
use pyreticulate.PyObject.{
  Head, object, Items, nil, cons, Entries, end, entry, heads, item_count, keys, Globals, py_is_none,
  r_scalar_type, scalar_list_type, py_list_check_exact, py_tuple_check_exact, py_dict_check_exact,
  has_attr,
}
use pyreticulate.ToR.{scalars_to_r, key_name, named_list, py_to_r, items_to_r, entries_to_r}

-- LENGTH(x) of a vector
unfoldable pub r_length : Sexp → ℕ
r_length null = 0
r_length (logical a v) = length v
r_length (integer a v) = length v
r_length (numeric a v) = length v
r_length (cplx a v) = length v
r_length (character a v) = length v
r_length (raw a v) = length v
r_length (vec a v) = size v
r_length _ = 1

length-map {ℓ κ} :
    {A : Type ℓ} {B : Type κ} (f : A → B) (xs : List A) → length (map f xs) ≡ length xs
length-map f [] = refl
length-map f (x ∷ xs) = ap suc (length-map f xs)

abbrev size_of : Result Sexps → ℕ
size_of (ok vs) = size vs
size_of (err e) = 0

abbrev pair_of : Result (List String × Sexps) → List String × Sexps
pair_of (ok r) = r
pair_of (err e) = ([], snil)

abbrev length_of : Result Sexp → ℕ
length_of (ok v) = r_length v
length_of (err e) = 0

ok-injective : {s t : Sexp} → ok s ≡ ok t → s ≡ t
ok-injective h = cc

size-items_to_r :
    (g : Globals) (xs : Items) (c : Bool) (vs : Sexps)
    → items_to_r g xs c ≡ ok vs
    → size vs ≡ item_count xs
unfolding py_to_r
size-items_to_r g nil c vs h = ap size_of (sym h)
size-items_to_r g (cons x xs) c vs h =
    let (v, e, f) = >>=-eq-ok (py_to_r g x c) _ h in
    let (rest, e', f') = >>=-eq-ok (items_to_r g xs c) _ f in
    ap size_of (sym f') ∙ ap suc (size-items_to_r g xs c rest e')

size-entries_to_r :
    (g : Globals) (es : Entries) (c : Bool) (r : List String × Sexps)
    → entries_to_r g es c ≡ ok r
    → (size r.1 ≡ length (keys es)) × (length r.0 ≡ length (keys es))
unfolding py_to_r
size-entries_to_r g end c r h =
    (ap (λ q. size (pair_of q).1) (sym h), ap (λ q. length (pair_of q).0) (sym h))
size-entries_to_r g (entry k x es) c r h =
    let (name, d, h1) = >>=-eq-ok (key_name g k) _ h in
    let (v, e, h2) = >>=-eq-ok (py_to_r g x c) _ h1 in
    let (rest, e', f') = >>=-eq-ok (entries_to_r g es c) _ h2 in
    let (ih, ih') = size-entries_to_r g es c rest e' in
    (
      ap (λ q. size (pair_of q).1) (sym f') ∙ ap suc ih,
      ap (λ q. length (pair_of q).0) (sym f') ∙ ap suc ih',
    )

length-scalars_to_r :
    (g : Globals) (t : SexpType) (hs : List Head) (elements : Result Sexps) (v : Sexp)
    → ((vs : Sexps) → elements ≡ ok vs → size vs ≡ length hs)
    → scalars_to_r g t hs elements ≡ ok v
    → r_length v ≡ length hs
unfolding scalars_to_r r_length
length-scalars_to_r g realsxp hs elements v sizes h = ap length_of (sym h) ∙ length-map _ hs
length-scalars_to_r g intsxp hs elements v sizes h = ap length_of (sym h) ∙ length-map _ hs
length-scalars_to_r g cplxsxp hs elements v sizes h = ap length_of (sym h) ∙ length-map _ hs
length-scalars_to_r g lglsxp hs elements v sizes h = ap length_of (sym h) ∙ length-map _ hs
length-scalars_to_r g strsxp hs elements v sizes h = ap length_of (sym h) ∙ length-map _ hs
length-scalars_to_r g _ hs elements v sizes h =
    let (vs, e, f) = >>=-eq-ok elements _ h in ap length_of (sym f) ∙ sizes vs e

length-heads : (xs : Items) → length (heads xs) ≡ item_count xs
length-heads nil = refl
length-heads (cons x xs) = ap suc (length-heads xs)

-- What each container becomes, when its conversion succeeds. An exact list becomes a vector or list
-- of as many elements; an exact tuple without `_fields` becomes a list, without names, of as many
-- elements; an exact dictionary becomes a list with one name and one element for each entry.
pub py_to_r-containers :
    (g : Globals) (h : Head) (items : Items) (entries : Entries) (c : Bool) (v : Sexp)
    → py_to_r g (object h items entries) c ≡ ok v
    → py_is_none g h ≡ false
    → r_scalar_type g h ≡ ok nilsxp
    → (py_list_check_exact g h ≡ true → r_length v ≡ item_count items)
      × (py_list_check_exact g h ≡ false
          → (py_tuple_check_exact g h && not (has_attr h "_fields")) ≡ true
          → (vs : Sexps) × (v ≡ vec no_attrs vs) × (size vs ≡ item_count items))
      × (py_list_check_exact g h ≡ false
          → (py_tuple_check_exact g h && not (has_attr h "_fields")) ≡ false
          → py_dict_check_exact g h ≡ true
          → (r : List String × Sexps) × (v ≡ named_list r)
            × (size r.1 ≡ length (keys entries))
            × (length r.0 ≡ length (keys entries)))
unfolding py_to_r
py_to_r-containers g h items entries c v e none_no scalar_no = (
  λ list.
      let (t, e1, e2) =
        >>=-eq-ok (scalar_list_type g (heads items)) _ (rw (none_no, scalar_no, list) at e) in
      length-scalars_to_r g t (heads items) (items_to_r g items c) v
        (λ vs f. size-items_to_r g items c vs f ∙ sym (length-heads items)) e2
      ∙ length-heads items,
  λ list tuple.
      let (vs, e1, e2) =
        >>=-eq-ok (items_to_r g items c) _ (rw (none_no, scalar_no, list, tuple) at e) in
      (vs, ok-injective (sym e2), size-items_to_r g items c vs e1),
  λ list tuple dict.
      let (r, e1, e2) =
        >>=-eq-ok (entries_to_r g entries c) _ (rw (none_no, scalar_no, list, tuple, dict) at e) in
      let (n, m) = size-entries_to_r g entries c r e1 in (r, ok-injective (sym e2), n, m),
)
