-- ===== src/Access/Dates.antt =====
-- Dates (`r_convert_date` of python.cpp): `datetime.date` of each R date, alone or in a list. The
-- list takes over the reference to each date.
use pyreticulate.Base.{
  ℕ, ◌+◌, ◌≡◌, arith, Bool, true, List, [], ◌∷◌, none, some, length, if◌then◌else◌, flag,
}
use pyreticulate.Result.{Result, ok, err, is_ok}
use pyreticulate.Sexp.{PyRef}
use pyreticulate.PyObject.{Head, Globals}
use pyreticulate.ClassNames.{py_ref}
use pyreticulate.Interp.{IsClean, Interp, take_ref, dec_ref, Holds}
use pyreticulate.Access.{Answer, returned, raised, new_ref, throw_error, own_ref}
use pyreticulate.Access.Call.{release_tuple}

-- `answer` is what the call of `datetime.date` answers.
unfoldable pub r_convert_date_impl : Answer Head → Interp → Result Head × Interp
unfolding throw_error
r_convert_date_impl answer s =
    let (date, s1) = new_ref answer s in
    let thrown = throw_error {A = Head} s1 in elim date [ none ↦ thrown | some h ↦ (ok h, s1) ]

-- The loop over several dates: how many the list holds.
unfoldable pub dates_loop : List (Answer Head) → ℕ → Interp → Result (Unit {0}) × ℕ × Interp
unfolding r_convert_date_impl
dates_loop [] n s = (ok tt, n, s)
dates_loop (a ∷ dates) n s =
    let (date, s1) = r_convert_date_impl a s in
    let rest = dates_loop dates (n + 1) s1 in elim date [ err e ↦ (err e, n, s1) | ok h ↦ rest ]

module _ (g : Globals) where
  -- A single date.
  unfoldable pub convert_one : Answer Head → Bool → Interp → Result PyRef × Interp
  unfolding r_convert_date_impl own_ref
  convert_one answer convert s =
      let (date, s1) = r_convert_date_impl answer s in
      elim date [ err e ↦ (err e, s1) | ok h ↦ own_ref g h convert s1 ]

  -- A number of dates other than one, in the list `list`.
  unfoldable pub convert_several : Head → List (Answer Head) → Bool → Interp → Result PyRef × Interp
  unfolding dates_loop own_ref
  convert_several list dates convert s =
      let (r, n, s1) = dates_loop dates 0 (take_ref s) in
      let owned = own_ref g list convert s1 in
      elim r [ err e ↦ (err e, release_tuple n s1) | ok u ↦ owned ]

  -- With `datetime` imported, which is released when the scope is left.
  unfoldable pub r_convert_date : Head → List (Answer Head) → Bool → Interp → Result PyRef × Interp
  unfolding convert_one convert_several
  r_convert_date list (date ∷ []) convert s =
      let (r, s1) = convert_one date convert (take_ref s) in (r, dec_ref s1)
  r_convert_date list dates convert s =
      let (r, s1) = convert_several list dates convert (take_ref s) in (r, dec_ref s1)

-- The references behind a conversion that succeeds: to the date, or to the list and its dates.
abbrev pub kept : List (Answer Head) → ℕ
kept (date ∷ []) = 1
kept dates = length dates + 1

convert_one-Holds :
    (g : Globals) (answer : Answer Head) (convert : Bool) (s : Interp)
    → IsClean s
    → let r = convert_one g answer convert s in Holds (flag (is_ok r.0)) s r.1 × IsClean r.1
unfolding convert_one
convert_one-Holds g (returned h) convert s clean = ground (arith, clean)
convert_one-Holds g (raised e) convert s clean = ground (arith, clean)

dates_loop-Holds :
    (dates : List (Answer Head)) (n : ℕ) (s : Interp)
    → IsClean s
    → let r = dates_loop dates n s in
      (r.2.taken + s.released + n ≡ r.2.released + s.taken + r.1)
      × IsClean r.2
      × (is_ok r.0 ≡ true → r.1 ≡ n + length dates)
unfolding dates_loop
dates_loop-Holds [] n s clean = (omega arith, clean, λ fine. omega arith)
dates_loop-Holds (returned h ∷ dates) n s clean =
    ground (arith, dates_loop-Holds dates (n + 1) (take_ref s) clean)
dates_loop-Holds (raised e ∷ dates) n s clean = ground (arith, clean)

convert_several-Holds :
    (g : Globals) (list : Head) (dates : List (Answer Head)) (convert : Bool) (s : Interp)
    → IsClean s
    → is_ok (py_ref g list convert []) ≡ true
    → let r = convert_several g list dates convert s in
      Holds (if is_ok r.0 then length dates + 1 else 0) s r.1 × IsClean r.1
unfolding convert_several
convert_several-Holds g list dates convert s clean accepted =
    ground (arith, accepted, dates_loop-Holds dates 0 (take_ref s) clean)

-- The conversion of dates, with `datetime` imported, from a clean state: it leaves no exception
-- pending, on every path; it gives back every reference if it fails, and keeps those of the result
-- if it succeeds, which is one for a single date, and else one for the list and one for each date.
pub r_convert_date-Holds :
    (g : Globals) (list : Head) (dates : List (Answer Head)) (convert : Bool) (s : Interp)
    → IsClean s
    → is_ok (py_ref g list convert []) ≡ true
    → let r = r_convert_date g list dates convert s in
      Holds (if is_ok r.0 then kept dates else 0) s r.1 × IsClean r.1
unfolding r_convert_date
r_convert_date-Holds g list (date ∷ []) convert s clean accepted =
    ground (arith, convert_one-Holds g date convert (take_ref s) clean)
r_convert_date-Holds g list [] convert s clean accepted =
    ground (arith, convert_several-Holds g list [] convert (take_ref s) clean accepted)
r_convert_date-Holds g list (a ∷ b ∷ dates) convert s clean accepted =
    ground (arith, convert_several-Holds g list (a ∷ b ∷ dates) convert (take_ref s) clean accepted)
