-- ===== src/Callback/References/Owned.antt =====
-- `call_r_function` (python.cpp) and the references that it keeps.
use pyreticulate.Base.{
  ℕ, suc, ◌+◌, ◌≡◌, refl, ap, is_some, arith, Bool, true, false, [], Option, none, some, String,
  if◌then◌else◌, inl, inr,
}
use pyreticulate.Result.{Failure, ok, is_ok, ◌>>=◌}
use pyreticulate.Sexp.{Sexp}
use pyreticulate.PyObject.{
  Head, PyObject, object, Items, nil, cons, Entries, end, entry, head, Globals,
}
use pyreticulate.ClassNames.{py_ref}
use pyreticulate.ToPy.{Make, r_to_py}
use pyreticulate.ToR.Ledger.Whole.{all_plain, to_r_ledger-py_to_r}
use pyreticulate.ToPy.References.{Rpytools, with_rpytools, r_to_py_refs}
use pyreticulate.ToPy.References.Owned.{r_to_py_refs-r_to_py}
use pyreticulate.ToPy.References.Leaves.{Result-cases}
use pyreticulate.Interp.{Interp, take_ref, dec_ref, Holds}
use pyreticulate.Access.{own_ref}
use pyreticulate.Callback.{
  Arguments, values, Keywords, value_list, Evaluated, results, interrupt, failed, unknown, jumped,
  Answered, pair, escaped, left_by_jump, pair_of, refs_of, named_refs_of, arguments_of, keywords_of,
  answer, call_r_function,
}
use pyreticulate.Callback.References.{
  refs_loop, named_loop, arguments_refs, keywords_refs, second_refs, answer_refs, call_refs,
  call_r_function_refs, without_slice,
}

-- An exception left the function.
abbrev pub is_escaped : Answered → Bool
is_escaped (escaped e) = true
is_escaped _ = false

module _ (g : Globals) where
  -- The references that R is handed: up to the first object that has no R class.
  abbrev pub handed : Items → ℕ
  handed nil = 0
  handed (cons x xs) =
      let rest = handed xs in if is_ok (py_ref g (head x) false []) then suc rest else 0

  abbrev pub handed_named : Entries → ℕ
  handed_named end = 0
  handed_named (entry k x es) =
      let rest = handed_named es in if is_ok (py_ref g (head x) false []) then suc rest else 0

  refs_loop-refs_of :
      (items : Items) (s : Interp)
      → let r = refs_loop g items s in (r.0 ≡ refs_of g items) × Holds (handed items) s r.1
  unfolding refs_loop refs_of own_ref
  refs_loop-refs_of nil s = (refl, omega arith)
  refs_loop-refs_of (cons x xs) s = ground (arith, refs_loop-refs_of xs (take_ref s))

  named_loop-named_refs_of :
      (es : Entries) (s : Interp)
      → let r = named_loop g es s in (r.0 ≡ named_refs_of g es) × Holds (handed_named es) s r.1
  unfolding named_loop named_refs_of own_ref
  named_loop-named_refs_of end s = (refl, omega arith)
  named_loop-named_refs_of (entry k x es) s =
      ground (arith, named_loop-named_refs_of es (dec_ref (take_ref (take_ref s))))

  abbrev pub handed_args : Bool → Items → ℕ
  handed_args true items = 0
  handed_args false items = handed items

  abbrev pub handed_kws : Bool → Option (Head × Entries) → ℕ
  handed_kws convert none = 0
  handed_kws true (some (h, es)) = 0
  handed_kws false (some (h, es)) = handed_named es

  -- No keyword's value is, or holds, an instance of a subclass of list.
  abbrev pub plain_keywords : Option (Head × Entries) → Bool
  plain_keywords none = true
  plain_keywords (some (h, es)) = all_plain g (object h nil es)

  arguments_refs-arguments_of :
      (convert : Bool) (h : Head) (items : Items) (s : Interp)
      → all_plain g (object h items end) ≡ true
      → let r = arguments_refs g convert h items s in
        (r.0 ≡ arguments_of g convert h items) × Holds (handed_args convert items) s r.1
  unfolding arguments_refs arguments_of
  arguments_refs-arguments_of true h items s plain =
      let (same, kept) = to_r_ledger-py_to_r g (object h items end) true s plain in
      (ap (λ r. r >>= λ v. ok (values v)) same, kept)
  arguments_refs-arguments_of false h items s plain = ground (arith, refs_loop-refs_of items s)

  keywords_refs-keywords_of :
      (convert : Bool) (keywords : Option (Head × Entries)) (s : Interp)
      → plain_keywords keywords ≡ true
      → let r = keywords_refs g convert keywords s in
        (r.0 ≡ keywords_of g convert keywords) × Holds (handed_kws convert keywords) s r.1
  unfolding keywords_refs keywords_of
  keywords_refs-keywords_of convert none s plain = (refl, omega arith)
  keywords_refs-keywords_of true (some (h, es)) s plain =
      let (same, kept) = to_r_ledger-py_to_r g (object h nil es) true s plain in
      (ap (λ r. r >>= λ v. ok (value_list v)) same, kept)
  keywords_refs-keywords_of false (some (h, es)) s plain =
      ground (arith, named_loop-named_refs_of es s)

  -- The references that R has been handed: those of the arguments, and those of the keywords where the
  -- arguments were all there.
  abbrev pub handed_over : Bool → Head → Items → Option (Head × Entries) → ℕ
  handed_over convert h items keywords =
      handed_args convert items
      + (if is_ok (arguments_of g convert h items) then handed_kws convert keywords else 0)

  -- The pair and the slice, as far as they are not released: the pair is the answer's, and R's jump
  -- leaves both.
  abbrev pub kept_by : Answered → ℕ
  kept_by (pair a b) = 1
  kept_by (escaped e) = 0
  kept_by left_by_jump = 2

  module _ (m : Make) (p : Rpytools) (what : Failure → String)
      (sets : (a b : PyObject) → is_some (m.set_base_object a b) ≡ true) where
    second_refs-pair_of :
        (a : PyObject) (e : Sexp) (s : Interp)
        → let r = second_refs g (with_rpytools p m) p what a e s in
          (r.0 ≡ pair_of g (with_rpytools p m) what (ok a) (r_to_py g (with_rpytools p m) e true))
          × Holds 0 s r.1
    unfolding second_refs
    second_refs-pair_of a e s =
        let n = with_rpytools p m in
        let (same, kept) = r_to_py_refs-r_to_py g m p e true s sets in
        elim (Result-cases (r_to_py_refs g n p e true s).0) [
          | inl (f, q) ↦ ground (arith, q, same, kept)
          | inr (b, q) ↦ ground (arith, q, same, kept)
        ]

    answer_refs-answer :
        (convert : Bool) (ev : Evaluated) (s : Interp)
        → let r = answer_refs g (with_rpytools p m) p what convert ev s in
          (r.0 ≡ answer g (with_rpytools p m) what convert ev) × Holds 0 s r.1
    unfolding answer_refs answer
    answer_refs-answer convert (results v e) s =
        let n = with_rpytools p m in
        let (same, kept) = r_to_py_refs-r_to_py g m p v convert s sets in
        let (r, s1) = r_to_py_refs g n p v convert s in
        elim (Result-cases r) [
          | inl (f, q) ↦ ground (arith, q, same, kept)
          | inr (a, q) ↦ ground (arith, q, same, kept, second_refs-pair_of a e (dec_ref s1))
        ]
    answer_refs-answer convert interrupt s = (refl, omega arith)
    answer_refs-answer convert (failed text) s = (refl, omega arith)
    answer_refs-answer convert unknown s = (refl, omega arith)
    answer_refs-answer convert jumped s = (refl, omega arith)

    without_slice-Holds :
        (a : Answered) (n : ℕ) (s t : Interp)
        → Holds (n + 2) s t
        → is_escaped a ≡ false
        → let r = without_slice g (with_rpytools p m) p what (a, t) in
          (r.0 ≡ a) × Holds (kept_by a + n) s r.1
    without_slice-Holds (pair x y) n s t h k = (refl, omega (arith, h))
    without_slice-Holds left_by_jump n s t h k = (refl, omega (arith, h))
    without_slice-Holds (escaped e) n s t h k = absurd (ground (arith, k))

    answer-escapes :
        (convert : Bool) (ev : Evaluated)
        → is_escaped (answer g (with_rpytools p m) what convert ev) ≡ false
    unfolding answer
    answer-escapes convert (results v e) = ground arith
    answer-escapes convert interrupt = refl
    answer-escapes convert (failed text) = refl
    answer-escapes convert unknown = refl
    answer-escapes convert jumped = refl

-- For a capsule that holds an R function: Python is given the pair of `call_r_function`, or the same
-- exception leaves, or R's jump goes past; and of the references that were taken, the code keeps that to
-- the pair, if there is one, and those to the slice and the pair behind a jump, and R keeps those that it
-- was handed. No argument is or holds an instance of a subclass of list, and every array can be given its
-- base object.
pub call_r_function_refs-call_r_function :
    (g : Globals) (m : Make) (p : Rpytools) (what : Failure → String)
    (evaluate : Sexp → Arguments → Keywords → Evaluated) (f : Sexp) (convert : Bool) (h : Head)
    (items : Items) (keywords : Option (Head × Entries)) (s : Interp)
    → ((a b : PyObject) → is_some (m.set_base_object a b) ≡ true)
    → all_plain g (object h items end) ≡ true
    → plain_keywords g keywords ≡ true
    → let n = with_rpytools p m in
      let r = call_r_function_refs g n p what evaluate (some f) convert h items keywords s in
      (r.0 ≡ call_r_function g n what evaluate (some f) convert h items keywords)
      × Holds (kept_by g r.0 + handed_over g convert h items keywords) s r.1
unfolding call_r_function_refs call_refs call_r_function
call_r_function_refs-call_r_function g m p what evaluate f convert h items keywords s sets plain
      plain_kws =
    let s0 = take_ref s in
    let (same, kept) = arguments_refs-arguments_of g convert h items s0 plain in
    let s1 = (arguments_refs g convert h items s0).1 in
    let (same', kept') = keywords_refs-keywords_of g convert keywords s1 plain_kws in
    let s2 = (keywords_refs g convert keywords s1).1 in
    elim (Result-cases (arguments_of g convert h items)) [
      | inl (e, q) ↦ ground (arith, q, same, kept)
      | inr (a, q) ↦ elim (Result-cases (keywords_of g convert keywords)) [
        | inl (e, q') ↦ ground (arith, q, same, kept, q', same', kept')
        | inr (k, q') ↦
            let ev = evaluate f a k in
            let n = with_rpytools p m in
            let (same'', kept'') = answer_refs-answer g m p what sets convert ev (take_ref s2) in
            let handed_all = handed_args g convert items + handed_kws g convert keywords in
            let t = (answer_refs g n p what convert ev (take_ref s2)).1 in
            let sliced =
              without_slice-Holds g m p what sets (answer g n what convert ev) handed_all s t
                (omega (arith, kept, kept', kept'')) (answer-escapes g m p what sets convert ev) in
            ground (arith, q, same, q', same', same'', sliced)
      ]
    ]
