-- ===== src/Callback.antt =====
-- `call_r_function` of python.cpp, which Python's wrapper of an R function calls with the capsule of the
-- function, its positional arguments and its keywords. R's evaluation and the text of a C++ exception
-- are arguments. The function is called from C: a C++ exception that leaves it has no handler.
pub mod Answers
pub mod References
use pyreticulate.Base.{
  ℕ, Bool, true, false, List, [], ◌∷◌, Option, none, some, String, if◌then◌else◌,
}
use pyreticulate.Result.{Failure, interrupted, python_exception, Result, ok, err, ◌>>=◌}
use pyreticulate.Sexp.{Sexp, PyRef, null}
use pyreticulate.PyObject.{
  Head, PyObject, object, Items, nil, cons, Entries, end, entry, head, Globals,
}
use pyreticulate.ClassNames.{py_ref}
use pyreticulate.ToR.{py_to_r}
use pyreticulate.ToPy.{Make, r_to_py, as_python_str}

-- What R is called with: values, or references to the Python objects.
pub data Arguments : Type 0 where
  values : Sexp → Arguments
  references : List PyRef → Arguments

pub data Keywords : Type 0 where
  no_keywords : Keywords
  value_list : Sexp → Keywords
  reference_list : List (String × PyRef) → Keywords

-- How R's evaluation ends: with a list of two, with an interrupt, with a C++ exception of R's that has
-- a text, with another one, or by a long jump of R out of the plain Rf_eval, as for a condition that a
-- caller of the Python code catches.
pub data Evaluated : Type 0 where
  results : Sexp → Sexp → Evaluated
  interrupt : Evaluated
  failed : String → Evaluated
  unknown : Evaluated
  jumped : Evaluated

-- The pair for Python, the exception that leaves the function, or R's jump past it, which runs neither
-- its handlers nor its destructors.
pub data Answered : Type 0 where
  pair : PyObject → PyObject → Answered
  escaped : Failure → Answered
  left_by_jump : Answered

module _ (g : Globals) where
  -- The loops for a function that does not convert.
  unfoldable pub refs_of : Items → Result (List PyRef)
  refs_of nil = ok []
  refs_of (cons x xs) =
      let rest = refs_of xs in py_ref g (head x) false [] >>= λ r. rest >>= λ rs. ok (r ∷ rs)

  unfoldable pub named_refs_of : Entries → Result (List (String × PyRef))
  named_refs_of end = ok []
  named_refs_of (entry k x es) =
      let rest = named_refs_of es in
      py_ref g (head x) false [] >>= λ r. rest >>= λ rs. ok ((k.str, r) ∷ rs)

  unfoldable pub arguments_of : Bool → Head → Items → Result Arguments
  unfolding refs_of
  arguments_of true h items = py_to_r g (object h items end) true >>= λ v. ok (values v)
  arguments_of false h items = refs_of items >>= λ rs. ok (references rs)

  unfoldable pub keywords_of : Bool → Option (Head × Entries) → Result Keywords
  unfolding named_refs_of
  keywords_of convert none = ok no_keywords
  keywords_of true (some (h, es)) = py_to_r g (object h nil es) true >>= λ v. ok (value_list v)
  keywords_of false (some (h, es)) = named_refs_of es >>= λ rs. ok (reference_list rs)

  module _ (m : Make) (what : Failure → String) where
    -- The handlers: for Rcpp's interrupt, for exceptions with a text, and for all others, of which
    -- PythonException is one.
    abbrev pub caught : Failure → String
    caught interrupted = "KeyboardInterrupt"
    caught python_exception = "(Unknown exception occurred)"
    caught e = what e

    -- None and a text.
    abbrev pub failure_pair : String → Answered
    failure_pair text = pair m.none_object (as_python_str g m (some text) false)

    abbrev pub pair_of : Result PyObject → Result PyObject → Answered
    pair_of (err e) second = failure_pair (caught e)
    pair_of (ok a) (err e) = failure_pair (caught e)
    pair_of (ok a) (ok b) = pair a b

    -- The `try` block and its handlers.
    unfoldable pub answer : Bool → Evaluated → Answered
    unfolding as_python_str
    answer convert (results v e) = pair_of (r_to_py g m v convert) (r_to_py g m e true)
    answer convert interrupt = failure_pair "KeyboardInterrupt"
    answer convert (failed text) = failure_pair text
    answer convert unknown = failure_pair "(Unknown exception occurred)"
    answer convert jumped = left_by_jump

    abbrev pub answer_or_escape : Result Answered → Answered
    answer_or_escape (err e) = escaped e
    answer_or_escape (ok a) = a

    -- `function` is the content of the capsule, `none` if it is no capsule of this package.
    unfoldable pub call_r_function :
        (Sexp → Arguments → Keywords → Evaluated)
        → Option Sexp
        → Bool
        → Head
        → Items
        → Option (Head × Entries)
        → Answered
    unfolding answer arguments_of keywords_of
    call_r_function evaluate function convert h items keywords =
        answer_or_escape (elim function as (λ f. Result Answered) [
          | none ↦ err python_exception
          | some f ↦ arguments_of convert h items >>= λ args.
              keywords_of convert keywords >>= λ kws. ok (answer convert (evaluate f args kws))
        ])
