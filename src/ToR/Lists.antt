-- ===== src/ToR/Lists.antt =====
-- When the elements of a Python list become an R vector (`scalar_list_type` of python.cpp).
use pyreticulate.Base.{◌≡◌, ◌≢◌, refl, ◌↔◌, true, List, [], ◌∷◌, arith, Bool-cases, inl, inr, sym}
use pyreticulate.Result.{ok, >>=-eq-ok}
use pyreticulate.Sexp.{SexpType, nilsxp, type_eq}
use pyreticulate.PyObject.{Head, Globals, r_scalar_type, all_scalars_of, scalar_list_type}

type_eq_self : (t : SexpType) → type_eq t t ≡ true
type_eq_self t = ground arith

eq_of_type_eq : (s t : SexpType) → type_eq s t ≡ true → s ≡ t
eq_of_type_eq s t h = ground arith

-- Every element is a scalar of the type `t`.
abbrev pub AllScalars : Globals → SexpType → List Head → Type 0
AllScalars g t [] = Unit
AllScalars g t (x ∷ xs) = (r_scalar_type g x ≡ ok t) × AllScalars g t xs

ok-injective : {s t : SexpType} → ok s ≡ ok t → s ≡ t
ok-injective h = cc

all_scalars_of-AllScalars :
    (g : Globals) (t : SexpType) (xs : List Head)
    → t ≢ nilsxp
    → all_scalars_of g t xs ≡ ok t
    → AllScalars g t xs
unfolding all_scalars_of
all_scalars_of-AllScalars g t [] scalar h = tt
all_scalars_of-AllScalars g t (x ∷ xs) scalar h =
    let (s, e, f) = >>=-eq-ok (r_scalar_type g x) _ h in
    elim (Bool-cases (type_eq s t)) [
      | inl same ↦
          (rw (← eq_of_type_eq s t same) e, all_scalars_of-AllScalars g t xs scalar (rw same at f))
      | inr differs ↦ absurd (scalar (sym (ok-injective (rw differs at f))))
    ]

AllScalars-all_scalars_of :
    (g : Globals) (t : SexpType) (xs : List Head) → AllScalars g t xs → all_scalars_of g t xs ≡ ok t
unfolding all_scalars_of
AllScalars-all_scalars_of g t [] h = refl
AllScalars-all_scalars_of g t (x ∷ xs) h =
    rw (h.0, type_eq_self t) (AllScalars-all_scalars_of g t xs h.1)

-- What the loop returns, if it is not `nilsxp`, is the type that it started with.
all_scalars_of-result :
    (g : Globals) (s : SexpType) (xs : List Head) (t : SexpType)
    → t ≢ nilsxp
    → all_scalars_of g s xs ≡ ok t
    → s ≡ t
unfolding all_scalars_of
all_scalars_of-result g s [] t scalar h = ok-injective h
all_scalars_of-result g s (x ∷ xs) t scalar h =
    let (u, e, f) = >>=-eq-ok (r_scalar_type g x) _ h in
    elim (Bool-cases (type_eq u s)) [
      | inl same ↦ all_scalars_of-result g s xs t scalar (rw same at f)
      | inr differs ↦ absurd (scalar (sym (ok-injective (rw differs at f))))
    ]

AllScalars-scalar_list_type :
    (g : Globals) (t : SexpType) (x : Head) (xs : List Head)
    → t ≢ nilsxp
    → AllScalars g t (x ∷ xs)
    → scalar_list_type g (x ∷ xs) ≡ ok t
unfolding scalar_list_type
AllScalars-scalar_list_type g t x xs scalar h = elim (Bool-cases (type_eq t nilsxp)) [
  | inl nil ↦ absurd (scalar (eq_of_type_eq t nilsxp nil))
  | inr some_type ↦ rw (h.0, some_type) (AllScalars-all_scalars_of g t xs h.1)
]

first-nilsxp :
    (g : Globals) (t : SexpType) (x : Head) (xs : List Head)
    → t ≢ nilsxp
    → scalar_list_type g (x ∷ xs) ≡ ok t
    → AllScalars g t (x ∷ xs)
unfolding scalar_list_type
first-nilsxp g t x xs scalar h =
    let (s, e, f) = >>=-eq-ok (r_scalar_type g x) _ h in
    elim (Bool-cases (type_eq s nilsxp)) [
      | inl nil ↦ absurd (scalar (sym (ok-injective (rw nil at f))))
      | inr some_type ↦
          let rest = rw some_type at f in
          let same = all_scalars_of-result g s xs t scalar rest in
          (rw (← same) e, all_scalars_of-AllScalars g t xs scalar (rw same at rest))
    ]

-- For a type other than NULL's, `scalar_list_type` answers it exactly for the lists that are not
-- empty and whose every element is a scalar of that type, none of them failing the test.
pub scalar_list_type-AllScalars :
    (g : Globals) (t : SexpType) (xs : List Head)
    → t ≢ nilsxp
    → (scalar_list_type g xs ≡ ok t) ↔ ((xs ≢ []) × AllScalars g t xs)
unfolding scalar_list_type
scalar_list_type-AllScalars g t xs scalar = (sound xs, λ h. complete xs h.0 h.1)
  where
    sound : (ys : List Head) → scalar_list_type g ys ≡ ok t → (ys ≢ []) × AllScalars g t ys
    sound [] h = absurd (scalar (sym (ok-injective h)))
    sound (y ∷ ys) h = (λ e. cc, first-nilsxp g t y ys scalar h)

    complete : (ys : List Head) → ys ≢ [] → AllScalars g t ys → scalar_list_type g ys ≡ ok t
    complete [] n h = absurd (n refl)
    complete (y ∷ ys) n h = AllScalars-scalar_list_type g t y ys scalar h
