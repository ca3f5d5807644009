-- ===== src/Formals/Statics.antt =====
-- The static variables of `py_get_formals` (python.cpp): the module `inspect` and six attributes, looked
-- up at the first call and kept. Only the last variable tells whether they have been set.
use pyreticulate.Base.{
  ℕ, ◌+◌, ◌≡◌, refl, arith, Bool, true, false, List, [], ◌∷◌, none, some, suc, if◌then◌else◌,
  all_of,
}
use pyreticulate.Result.{Result, ok, is_ok}
use pyreticulate.Interp.{IsClean, Interp, take_ref}
use pyreticulate.Access.{Answer, returned, raised, new_ref, throw_error}
use pyreticulate.Access.Ledger.{is_returned}

-- The look-ups in turn: the first that fails throws.
unfoldable pub look_up_all : List (Answer (Unit {0})) → Interp → Result (Unit {0}) × Interp
unfolding throw_error
look_up_all [] s = (ok tt, s)
look_up_all (a ∷ answers) s =
    let (object, s1) = new_ref a s in
    let thrown = throw_error {A = Unit} s1 in
    let rest = look_up_all answers s1 in elim object [ none ↦ thrown | some u ↦ rest ]

-- `cached` is whether `inspect_Parameter_empty` is set.
unfoldable pub initialize_statics :
    Bool → List (Answer (Unit {0})) → Interp → Result (Unit {0}) × Bool × Interp
unfolding look_up_all
initialize_statics true answers s = (ok tt, true, s)
initialize_statics false answers s = let (r, s1) = look_up_all answers s in (r, is_ok r, s1)

-- The look-ups ahead of the first that fails.
abbrev pub until_raised : List (Answer (Unit {0})) → ℕ
until_raised [] = 0
until_raised (returned u ∷ answers) = suc (until_raised answers)
until_raised (raised e ∷ answers) = 0

look_up_all_lem :
    (answers : List (Answer (Unit {0}))) (s : Interp)
    → IsClean s
    → let r = look_up_all answers s in
      IsClean r.1
      × (r.1.taken ≡ s.taken + until_raised answers)
      × (r.1.released ≡ s.released)
      × (is_ok r.0 ≡ all_of is_returned answers)
unfolding look_up_all
look_up_all_lem [] s clean = (clean, omega arith, refl, refl)
look_up_all_lem (returned u ∷ answers) s clean =
    let (error, taken, released, fine) = look_up_all_lem answers (take_ref s) clean in
    (error, omega (arith, taken), released, fine)
look_up_all_lem (raised e ∷ answers) s clean = ground (arith, clean)

-- The first call sets the variables exactly if every look-up succeeds, and takes one reference for
-- each look-up ahead of the first that fails; a call behind one that has set them takes none. A call
-- behind one that failed looks all up again, so that the references of the first are kept twice.
pub initialize_statics-twice :
    (first second : List (Answer (Unit {0}))) (s : Interp)
    → IsClean s
    → let r1 = initialize_statics false first s in
      let r2 = initialize_statics r1.1 second r1.2 in
      let complete = all_of is_returned first in
      (r1.1 ≡ complete)
      × (r2.2.taken
          ≡ s.taken + (until_raised first + (if complete then 0 else until_raised second)))
      × (r2.2.released ≡ s.released)
      × IsClean r2.2
unfolding initialize_statics
initialize_statics-twice first second s clean =
    let once = look_up_all_lem first s clean in
    let again = look_up_all_lem second (look_up_all first s).1 once.0 in ground (arith, once, again)
