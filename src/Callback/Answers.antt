-- ===== src/Callback/Answers.antt =====
-- What Python gets from an R function that it calls (python.cpp).
use pyreticulate.Base.{◌≡◌, refl, ◌⊎◌, inl, inr, Bool, true, false, ◌&&◌, Option, some, String}
use pyreticulate.Result.{is_ok, Failure, Result, ok, err}
use pyreticulate.Sexp.{Sexp}
use pyreticulate.PyObject.{Head, PyObject, Items, Entries, Globals}
use pyreticulate.ToPy.{Make, r_to_py}
use pyreticulate.Callback.{
  Arguments, Keywords, Evaluated, results, interrupt, failed, unknown, jumped, Answered,
  left_by_jump, pair, escaped, arguments_of, keywords_of, caught, pair_of, failure_pair, answer,
  call_r_function,
}

-- R returned two results, and both can be converted.
abbrev pub both_convert : Globals → Make → Bool → Evaluated → Bool
both_convert g m convert (results v e) = is_ok (r_to_py g m v convert) && is_ok (r_to_py g m e true)
both_convert g m convert _ = false

-- The two results as Python objects.
abbrev pub Converted : Globals → Make → Bool → Evaluated → PyObject → PyObject → Type 0
Converted g m convert (results v e) x y =
    (r_to_py g m v convert ≡ ok x) × (r_to_py g m e true ≡ ok y)
Converted g m convert _ x y = ⊥

abbrev pub is_jump : Evaluated → Bool
is_jump jumped = true
is_jump _ = false

-- R's jump goes past the function; otherwise the answer is the pair of the converted results, exactly if
-- there are two and both can be converted, and else None and a text.
abbrev pub AnswersAs : Globals → Make → (Failure → String) → Bool → Evaluated → Answered → Type 0
AnswersAs g m what convert ev a =
    (is_jump ev ≡ true) × (a ≡ left_by_jump)
    ⊎ (is_jump ev ≡ false)
      × ((both_convert g m convert ev ≡ true)
            × ((x : PyObject) × (y : PyObject) × Converted g m convert ev x y × (a ≡ pair x y))
          ⊎ (both_convert g m convert ev ≡ false)
            × ((text : String) × (a ≡ failure_pair g m what text)))

module _ (g : Globals) (m : Make) (what : Failure → String) where
  pair_of_lem :
      (a b : Result PyObject)
      → ((is_ok a && is_ok b) ≡ true)
          × ((x : PyObject) × (y : PyObject) × ((a ≡ ok x) × (b ≡ ok y))
              × (pair_of g m what a b ≡ pair x y))
        ⊎ ((is_ok a && is_ok b) ≡ false)
          × ((text : String) × (pair_of g m what a b ≡ failure_pair g m what text))
  pair_of_lem (ok a) (ok b) = inl (refl, (a, b, (refl, refl), refl))
  pair_of_lem (ok a) (err e) = inr (refl, (caught g m what e, refl))
  pair_of_lem (err e) b = inr (refl, (caught g m what e, refl))

  answer_lem :
      (convert : Bool) (ev : Evaluated) → AnswersAs g m what convert ev (answer g m what convert ev)
  unfolding answer
  answer_lem convert (results v e) =
      inr (refl, pair_of_lem (r_to_py g m v convert) (r_to_py g m e true))
  answer_lem convert interrupt = inr (refl, inr (refl, ("KeyboardInterrupt", refl)))
  answer_lem convert (failed text) = inr (refl, inr (refl, (text, refl)))
  answer_lem convert unknown = inr (refl, inr (refl, ("(Unknown exception occurred)", refl)))
  answer_lem convert jumped = inl (refl, refl)

-- Once its arguments have been converted, no C++ exception leaves the function. A long jump of R out of
-- the evaluation goes past it, and Python gets nothing. Otherwise Python gets a pair: the two converted
-- results, exactly if R returns two results and both can be converted, and else None and the text of an
-- error.
pub call_r_function_lem :
    (g : Globals) (m : Make) (what : Failure → String)
    (evaluate : Sexp → Arguments → Keywords → Evaluated) (f : Sexp) (convert : Bool) (h : Head)
    (items : Items) (keywords : Option (Head × Entries)) (args : Arguments) (kws : Keywords)
    → arguments_of g convert h items ≡ ok args
    → keywords_of g convert keywords ≡ ok kws
    → AnswersAs g m what convert
        (evaluate f args kws)
        (call_r_function g m what evaluate (some f) convert h items keywords)
unfolding call_r_function
call_r_function_lem g m what evaluate f convert h items keywords args kws p q =
    rw (p, q) (answer_lem g m what convert (evaluate f args kws))

-- An argument that cannot be converted makes a C++ exception leave the function, which Python calls
-- from C.
pub call_r_function-escaped :
    (g : Globals) (m : Make) (what : Failure → String)
    (evaluate : Sexp → Arguments → Keywords → Evaluated) (f : Sexp) (convert : Bool) (h : Head)
    (items : Items) (keywords : Option (Head × Entries)) (e : Failure)
    → arguments_of g convert h items ≡ err e
    → call_r_function g m what evaluate (some f) convert h items keywords ≡ escaped e
unfolding call_r_function
call_r_function-escaped g m what evaluate f convert h items keywords e p = rw p refl
