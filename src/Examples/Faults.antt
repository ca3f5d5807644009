-- ===== src/Examples/Faults.antt =====
-- Exceptions and capsules at concrete inputs.
use pyreticulate.Base.{◌&&◌, ◌≡◌, refl, true, ◌&&◌, [], ◌∷◌, none, some, arith}
use pyreticulate.Bytes.{codes}
use pyreticulate.Sexp.{PyRef}
use pyreticulate.Fetch.{Carried, Exception, Fetching}
use pyreticulate.Capsules.{
  py_capsule_read, Store, Reach, here, next_step, capsule, free, empty_store, count, py_capsule_new,
  py_capsule_free,
}
use pyreticulate.Capsules.Protected.{IsAccounted, Reach-IsAccounted}
use pyreticulate.Capsules.Read.{Reach-no_leak, py_capsule_read-py_capsule_new}
use pyreticulate.Examples.Values.{quiet, idle, plain_head}

abbrev exception : Exception
exception = record {
  head = plain_head;
  call = none;
  trace = none;
  contexts = (none, none) ∷ (some 8, some 9) ∷ [];
  writable = true;
  traceback = true;
}

abbrev own_exception : Exception
own_exception = record exception { call = some 8; trace = some 9 }

abbrev fetching_pending : Fetching
fetching_pending = record {
  interp = record idle { error = some 5 };
  signals = quiet;
  excess = 0;
  warnings = 0;
}

abbrev fetching : Fetching
fetching = record { interp = idle; signals = quiet; excess = 0; warnings = 0 }

abbrev carried_over : Carried
carried_over = (some 8, some 9)

abbrev condition : PyRef
condition = record { address = 100; convert = true; classes = codes "python.builtin.object" ∷ [] }

abbrev one_capsule : Store
one_capsule = py_capsule_new 5 empty_store

abbrev freed : Store
freed = py_capsule_free (λ i. true) true 1 one_capsule

one_capsule_reached : Reach empty_store one_capsule
one_capsule_reached = next_step here (capsule empty_store 5)

freed_reached : Reach empty_store freed
unfolding py_capsule_new
freed_reached = next_step one_capsule_reached (free one_capsule (λ i. true) true 1 0 refl)

Reach-IsAccounted_example : IsAccounted one_capsule 1
Reach-IsAccounted_example = Reach-IsAccounted 1 one_capsule_reached

py_capsule_read-py_capsule_new_example : py_capsule_read empty_store.next one_capsule ≡ some 5
unfolding py_capsule_new
py_capsule_read-py_capsule_new_example =
    py_capsule_read-py_capsule_new empty_store one_capsule 5 here
      (λ (h : 5 ≡ 0). absurd (omega (arith, h))) here (omega arith)

Reach-no_leak_example : count 1 freed.precious ≡ 0
unfolding py_capsule_free py_capsule_new
Reach-no_leak_example =
    Reach-no_leak freed 1 freed_reached refl refl refl (λ (h : 1 ≡ 0). absurd (omega (arith, h)))
