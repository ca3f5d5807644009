-- ===== src/Examples/Calls.antt =====
-- Entry points, formals and calls back into R at concrete inputs.
use pyreticulate.Base.{
  ◌+◌, ℕ, ◌+◌, ◌≡◌, refl, Bool, true, false, List, [], ◌∷◌, Option, none, some, flag, arith, String,
}
use pyreticulate.Interp.{Holds}
use pyreticulate.Result.{Failure}
use pyreticulate.Sexp.{Sexp, null}
use pyreticulate.PyObject.{Head, PyObject, nil, Entries}
use pyreticulate.ToPy.References.{with_rpytools}
use pyreticulate.Access.{raised}
use pyreticulate.Access.Call.{py_call_impl}
use pyreticulate.Entry.Exported.{exported, exit_of, is_value, exported-py_call_impl}
use pyreticulate.Entry.{Gil, returns, throws, jumps, interrupted_exception}
use pyreticulate.Entry.Nesting.{
  Program, nothing, start, left_locked, finalizer, after, call, run, run-depth,
}
use pyreticulate.Formals.{var_positional, Param, Heap, value, py_get_formals}
use pyreticulate.Formals.Build.{IsAllocator, Represents, build_formals, build_formals-Represents}
use pyreticulate.Callback.{
  arguments_of, keywords_of, Arguments, references, Keywords, no_keywords, Evaluated, results,
  call_r_function,
}
use pyreticulate.Callback.Answers.{AnswersAs, call_r_function_lem}
use pyreticulate.Examples.Values.{rpytools, idle, globals, make, one_two, plain_head, atom}

abbrev asleep : Gil
asleep = record { initialized = false; depth = 0; fatal = false; released_objects = 0 }

abbrev numbered : Failure → ℕ
numbered e = 4

abbrev nested : Program
nested =
    call
      (after start
        (after (call nothing jumps) (call (finalizer (some 3)) (throws interrupted_exception))))
      (returns 1)

abbrev alloc_at : ℕ → ℕ
alloc_at i = i + 10

alloc_at-IsAllocator : IsAllocator alloc_at
alloc_at-IsAllocator = record {
  apart = λ (i j : ℕ) (h : alloc_at i ≡ alloc_at j). omega (arith, h);
  proper = λ (i : ℕ) (h : alloc_at i ≡ 0). absurd (omega (arith, h));
}

abbrev heap : Heap
heap i = record { car = value none; cdr = 0; tag = "" }

abbrev two_params : Option (List Param × Bool)
two_params = some (
  record { name = some "x"; kind = none; dflt = none }
      ∷ record { name = some "args"; kind = some var_positional; dflt = none }
      ∷ [],
  false,
)

abbrev what_text : Failure → String
what_text e = "failed"

abbrev two_results : Sexp → Arguments → Keywords → Evaluated
two_results f args kws = results one_two null

abbrev nameless : PyObject
nameless = atom (record plain_head { mro = none })

abbrev no_kwargs : Option (Head × Entries)
no_kwargs = none

run-depth_example :
    ((run nested asleep).depth ≡ asleep.depth + left_locked nested asleep)
    × ((run nested asleep).fatal ≡ asleep.fatal)
run-depth_example = run-depth nested asleep

build_formals-Represents_example :
    Represents alloc_at
      (py_get_formals globals two_params)
      (build_formals globals alloc_at two_params heap)
build_formals-Represents_example =
    build_formals-Represents globals alloc_at two_params heap alloc_at-IsAllocator

exported-py_call_impl_example :
    let r =
      py_call_impl globals
        (with_rpytools rpytools make)
        rpytools
        (one_two ∷ [])
        []
        (raised 5)
        true
        idle in
    let t = exported numbered r.0 asleep in
    (t.0 ≡ exit_of numbered r.0)
    × (t.1.depth ≡ asleep.depth)
    × (t.1.fatal ≡ asleep.fatal)
    × (r.1.error ≡ none)
    × Holds (flag (is_value t.0)) idle r.1
exported-py_call_impl_example =
    exported-py_call_impl globals make rpytools (one_two ∷ []) [] (raised 5) true numbered asleep
      idle (λ a b. refl) (refl, refl)

call_r_function_lem_example :
    AnswersAs globals make what_text false (two_results null (references []) no_keywords) (
      call_r_function globals make what_text two_results (some null) false plain_head nil no_kwargs)
unfolding arguments_of keywords_of
call_r_function_lem_example =
    call_r_function_lem globals make what_text two_results null false plain_head nil no_kwargs
      (references []) no_keywords refl refl
