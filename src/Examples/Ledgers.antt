-- ===== src/Examples/Ledgers.antt =====
-- The conversions and their references at concrete inputs.
use pyreticulate.Base.{
  ℕ, ◌+◌, ◌≡◌, refl, true, false, List, [], ◌∷◌, Option, none, some, if◌then◌else◌, String,
}
use pyreticulate.Interp.{Holds}
use pyreticulate.Base.Int.{pos}
use pyreticulate.Result.{Result, ok, is_ok}
use pyreticulate.Sexp.{Sexp, numeric, vec, scons, snil, no_attrs}
use pyreticulate.PyObject.{Head, PyObject}
use pyreticulate.ToPy.{Make, Memory, doubles, r_to_py, npy_array_farray_ro}
use pyreticulate.TypeNum.{npy_double}
use pyreticulate.ToPy.References.{with_rpytools, r_to_py_refs}
use pyreticulate.ToPy.References.Owned.{r_to_py_refs-r_to_py}
use pyreticulate.Callback.{Arguments, Keywords, Evaluated, results, call_r_function}
use pyreticulate.Callback.References.{call_r_function_refs}
use pyreticulate.Callback.References.Owned.{
  kept_by, handed_over, call_r_function_refs-call_r_function,
}
use pyreticulate.PyObject.{Array, Items, nil, cons, Entries, end, entry}
use pyreticulate.Result.{Failure}
use pyreticulate.Sexp.{Sexps, null}
use pyreticulate.ToR.{py_to_r}
use pyreticulate.ToR.Ledger.{to_r_ledger}
use pyreticulate.ToR.Ledger.Whole.{all_plain, items_plain, entries_plain, to_r_ledger-py_to_r}
use pyreticulate.PyObject.{object}
use pyreticulate.Examples.Values.{
  rpytools, list_head, no_array, atom, int_head, idle, globals, make, plain_head, plain_object,
  one_two,
}

abbrev setting : Make
setting = record make { has_set_base_object = true; set_base_object = λ array base. some array }

abbrev failing : Make
failing = record make {
  has_set_base_object = true;
  set_base_object = λ array base. none;
  array_new = λ a. some plain_object;
}

abbrev a_list : Sexp
a_list = vec no_attrs (scons one_two (scons (numeric no_attrs (7 ∷ [])) snil))

abbrev doubles_of : Sexp
doubles_of = numeric no_attrs (7 ∷ 8 ∷ [])

abbrev memory : ℕ × Memory × ℕ
memory = (npy_double, doubles (7 ∷ 8 ∷ []), npy_array_farray_ro)

abbrev answers_null : Sexp → Arguments → Keywords → Evaluated
answers_null f args kws = results one_two null

abbrev what : Failure → String
what f = "error"

abbrev two_args : Items
two_args = cons (atom (int_head (pos 1))) (cons (atom (int_head (pos 2))) nil)

abbrev one_keyword : Option (Head × Entries)
one_keyword = some (plain_head, entry plain_head (atom (int_head (pos 3))) end)

abbrev nested : PyObject
nested = object list_head (cons (object list_head two_args end) (cons plain_object nil)) end

abbrev matrix : Array
matrix = record no_array { dims = 2 ∷ 1 ∷ []; size = 2; typenum = npy_double; cast = true }

abbrev no_heads : List Head
no_heads = []

abbrev no_elements : Result Sexps
no_elements = ok snil

r_to_py_refs-r_to_py_example :
    let r = r_to_py_refs globals (with_rpytools rpytools setting) rpytools a_list true idle in
    (r.0 ≡ r_to_py globals (with_rpytools rpytools setting) a_list true)
    × Holds (if is_ok r.0 then 1 else 0) idle r.1
r_to_py_refs-r_to_py_example =
    r_to_py_refs-r_to_py globals setting rpytools a_list true idle (λ a b. refl)

to_r_ledger-py_to_r_example :
    let r = to_r_ledger globals nested true idle in
    (r.0 ≡ py_to_r globals nested true) × Holds 0 idle r.1
unfolding all_plain items_plain entries_plain
to_r_ledger-py_to_r_example = to_r_ledger-py_to_r globals nested true idle refl

call_r_function_refs-call_r_function_example :
    let r =
      call_r_function_refs globals
        (with_rpytools rpytools make)
        rpytools
        what
        answers_null
        (some one_two)
        false
        plain_head
        two_args
        one_keyword
        idle in
    (r.0
      ≡ call_r_function globals
          (with_rpytools rpytools make)
          what
          answers_null
          (some one_two)
          false
          plain_head
          two_args
          one_keyword)
    × Holds
        (kept_by globals r.0 + handed_over globals false plain_head two_args one_keyword)
        idle
        r.1
unfolding all_plain items_plain entries_plain
call_r_function_refs-call_r_function_example =
    call_r_function_refs-call_r_function globals make rpytools what answers_null one_two false
      plain_head two_args one_keyword idle (λ a b. refl) refl refl
