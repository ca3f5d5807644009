-- ===== src/Examples/Answers.antt =====
-- Code that is run, dictionaries, lengths and modules at concrete inputs.
use pyreticulate.Base.{◌⊎◌, inl, inr, ℕ, refl, true, List, [], ◌∷◌, Option, none, some}
use pyreticulate.Base.Int.{ℤ, pos}
use pyreticulate.Bytes.{Bytes, codes}
use pyreticulate.Sexp.{Sexp, PyRef}
use pyreticulate.Result.{Result, ok, err, interrupted}
use pyreticulate.PyObject.{PyObject, Items, nil, cons}
use pyreticulate.Interp.{Interp}
use pyreticulate.Interp.Buffers.{working, absent}
use pyreticulate.Access.{Answer, returned, raised}
use pyreticulate.Access.Run.{Running, Script, py_run_file_impl}
use pyreticulate.Access.Run.Kept.{IsKept, py_run_file_impl-IsKept}
use pyreticulate.Access.Dict.{Key}
use pyreticulate.Access.Modules.{Entry}
use pyreticulate.Examples.Values.{idle, globals, one_two, plain_head, int_head, atom}

abbrev pending : Interp
pending = record idle { error = some 5 }

abbrev running : Running
running = record { interp = idle; opened = 0; closed = 0; warnings = 0 }

abbrev script : Script
script = record {
  opens = true;
  set_file = returned tt;
  set_cached = returned tt;
  run = returned tt;
  delete_file = returned tt;
  delete_cached = raised 5;
  sys_stdout = working;
  sys_stderr = absent;
}

abbrev keys_and_end : List Key × Option ℕ
keys_and_end =
    (record { key = plain_head; bytes = raised 5; str = returned (returned "1") } ∷ [], none)

abbrev stores : PyObject → PyObject → Answer (Unit {0})
stores k v = returned tt

abbrev an_item : List PyObject
an_item = atom (int_head (pos 1)) ∷ []

abbrev two_items : Items
two_items = cons (atom (int_head (pos 1))) (cons (atom (int_head (pos 2))) nil)

abbrev no_exception : Option ℕ
no_exception = none

abbrev no_double : ℤ → ℕ
no_double z = 0

abbrev default_value : Option Sexp
default_value = some one_two

abbrev os : Bytes
os = codes "os"

abbrev module_table : List Entry
module_table =
    record { key = plain_head; name = codes "sys"; value = plain_head }
    ∷ record {
      key = record plain_head { ob_type = 13 };
      name = codes "os.path";
      value = plain_head;
    }
    ∷ []

abbrev submodules : List Bytes
submodules = codes "path" ∷ []

py_run_file_impl-IsKept_example :
    IsKept script running (py_run_file_impl globals plain_head script true running)
py_run_file_impl-IsKept_example =
    py_run_file_impl-IsKept globals plain_head script true running refl (refl, refl)

abbrev fits : PyObject → Option ℕ
fits x = none

abbrev converted_item : Sexp ⊎ PyRef → Result Sexp
converted_item (inl v) = ok v
converted_item (inr r) = err interrupted
