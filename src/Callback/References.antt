-- ===== src/Callback/References.antt =====
-- The references that `call_r_function` (python.cpp) takes: the slice of the arguments, one for each
-- reference that R is handed, the texts of the keywords, and the pair with what it takes over. Those of
-- the conversions are counted as `to_r_ledger` and `r_to_py_refs` do. A reference that R is handed is
-- R's to give back.
pub mod Owned
use pyreticulate.Base.{
  ℕ, suc, Bool, true, false, List, [], ◌∷◌, Option, none, some, String, if◌then◌else◌,
}
use pyreticulate.Result.{Failure, Result, ok, err, python_exception, interrupted, ◌>>=◌}
use pyreticulate.Sexp.{Sexp, PyRef}
use pyreticulate.PyObject.{
  Head, PyObject, object, Items, nil, cons, Entries, end, entry, head, Globals,
}
use pyreticulate.ToR.Ledger.{to_r_ledger}
use pyreticulate.ToPy.{Make}
use pyreticulate.ToPy.References.{Rpytools, r_to_py_refs, given_ref, stolen}
use pyreticulate.Interp.{Interp, take_ref, dec_ref}
use pyreticulate.Access.{own_ref}
use pyreticulate.Callback.{
  Arguments, values, references, Keywords, no_keywords, value_list, reference_list, Evaluated,
  results, interrupt, failed, unknown, jumped, Answered, pair, escaped, left_by_jump, caught,
  failure_pair,
}

module _ (g : Globals) where
  -- The loop over the positional arguments: each is borrowed, and R is given a reference of its own.
  unfoldable pub refs_loop : Items → Interp → Result (List PyRef) × Interp
  unfolding own_ref
  refs_loop nil s = (ok [], s)
  refs_loop (cons x xs) s =
      let (r, s1) = own_ref g (head x) false (take_ref s) in
      let rest = refs_loop xs s1 in
      elim r [ err e ↦ (err e, s1) | ok p ↦ (rest.0 >>= λ ps. ok (p ∷ ps), rest.1) ]

  -- The loop over the keywords: the text of a key is released when its round is over.
  unfoldable pub named_loop : Entries → Interp → Result (List (String × PyRef)) × Interp
  unfolding own_ref
  named_loop end s = (ok [], s)
  named_loop (entry k x es) s =
      let (r, s1) = own_ref g (head x) false (take_ref (take_ref s)) in
      let rest = named_loop es (dec_ref s1) in
      elim r [
        | err e ↦ (err e, dec_ref s1)
        | ok p ↦ (rest.0 >>= λ ps. ok ((k.str, p) ∷ ps), rest.1)
      ]

  unfoldable pub arguments_refs : Bool → Head → Items → Interp → Result Arguments × Interp
  unfolding refs_loop
  arguments_refs true h items s =
      let (r, s1) = to_r_ledger g (object h items end) true s in (r >>= λ v. ok (values v), s1)
  arguments_refs false h items s =
      let (r, s1) = refs_loop items s in (r >>= λ ps. ok (references ps), s1)

  unfoldable pub keywords_refs : Bool → Option (Head × Entries) → Interp → Result Keywords × Interp
  unfolding named_loop
  keywords_refs convert none s = (ok no_keywords, s)
  keywords_refs true (some (h, es)) s =
      let (r, s1) = to_r_ledger g (object h nil es) true s in (r >>= λ v. ok (value_list v), s1)
  keywords_refs false (some (h, es)) s =
      let (r, s1) = named_loop es s in (r >>= λ ps. ok (reference_list ps), s1)

  module _ (m : Make) (p : Rpytools) (what : Failure → String) where
    -- A handler: None and a text, which the pair takes over in place of what it has.
    abbrev pub failure_refs : String → Interp → Answered × Interp
    failure_refs text s = (failure_pair g m what text, stolen 2 s)

    -- The conversion of the second result, with the first in the pair.
    unfoldable pub second_refs : PyObject → Sexp → Interp → Answered × Interp
    second_refs a e s =
        let (r, s1) = r_to_py_refs g m p e true s in
        elim r [ err f ↦ failure_refs (caught g m what f) s1 | ok b ↦ (pair a b, dec_ref s1) ]

    -- The `try` block and its handlers, with the pair.
    unfoldable pub answer_refs : Bool → Evaluated → Interp → Answered × Interp
    unfolding second_refs
    answer_refs convert (results v e) s =
        let (r, s1) = r_to_py_refs g m p v convert s in
        elim r [ err f ↦ failure_refs (caught g m what f) s1 | ok a ↦ second_refs a e (dec_ref s1) ]
    answer_refs convert interrupt s = failure_refs "KeyboardInterrupt" s
    answer_refs convert (failed text) s = failure_refs text s
    answer_refs convert unknown s = failure_refs "(Unknown exception occurred)" s
    answer_refs convert jumped s = (left_by_jump, s)

    -- The destructor of the slice, which R's jump skips.
    abbrev pub without_slice : Answered × Interp → Answered × Interp
    without_slice (left_by_jump, s) = (left_by_jump, s)
    without_slice (pair x y, s) = (pair x y, dec_ref s)
    without_slice (escaped e, s) = (escaped e, dec_ref s)

    -- Behind the slice, with the pair.
    unfoldable pub call_refs :
        (Sexp → Arguments → Keywords → Evaluated)
        → Sexp
        → Bool
        → Head
        → Items
        → Option (Head × Entries)
        → Interp
        → Answered × Interp
    unfolding arguments_refs keywords_refs answer_refs
    call_refs evaluate f convert h items keywords s =
        let (args, s1) = arguments_refs convert h items s in
        let (kws, s2) = keywords_refs convert keywords s1 in
        elim args [
          | err e ↦ (escaped e, s1)
          | ok a ↦ elim kws [
            | err e ↦ (escaped e, s2)
            | ok k ↦ answer_refs convert (evaluate f a k) (take_ref s2)
          ]
        ]

    unfoldable pub call_r_function_refs :
        (Sexp → Arguments → Keywords → Evaluated)
        → Option Sexp
        → Bool
        → Head
        → Items
        → Option (Head × Entries)
        → Interp
        → Answered × Interp
    unfolding call_refs
    call_r_function_refs evaluate none convert h items keywords s = (escaped python_exception, s)
    call_r_function_refs evaluate (some f) convert h items keywords s =
        without_slice (call_refs evaluate f convert h items keywords (take_ref s))
