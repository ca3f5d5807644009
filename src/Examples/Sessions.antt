-- ===== src/Examples/Sessions.antt =====
-- Interrupts, texts, type objects, statics and the trace thread at concrete inputs.
use pyreticulate.Signals.Machine.Kept.{put_aside, is_cons, run-unanswered}
use pyreticulate.Base.{
  ◌||◌, ◌+◌, ◌*◌, ◌≡◌, refl, true, false, not, List, [], ◌∷◌, ◌++◌, map, Option, none, some, arith,
  length,
}
use pyreticulate.Bytes.{Bytes, codes}
use pyreticulate.Result.{ok, err, stop, python_exception}
use pyreticulate.PyObject.{Head}
use pyreticulate.Interp.{clear}
use pyreticulate.Signals.{
  get_interrupts_pending, get_interrupts_suspended, py_interrupts_pending, interrupt_handler,
  enter_scope, leave_scope,
}
use pyreticulate.Signals.Machine.{
  Event, register, sigint, enter, leave, ask, Machine, step, run, start, register_interrupt_handler,
  deliver, open_scope, close_scope, ask_pending,
}
use pyreticulate.Signals.Machine.Kept.{run-reported}
use pyreticulate.Wide.{to_wstring, to_string}
use pyreticulate.Wide.Texts.{Encodes, nothing, char, to_string-to_wstring}
use pyreticulate.Process.Trace.{Frame, Tracing, trace_thread_main}
use pyreticulate.Process.Trace.Lines.{
  Named, outermost, called, no_thread, thread, Rounds, asleep, round, onto_all,
  trace_thread_main-Rounds,
}
use pyreticulate.Session.Objects.{initialize_type_objects, with_type_objects}
use pyreticulate.Session.Objects.Tests.{Builtins, IsCpython, py_list_submodules-python3}
use pyreticulate.Access.{Answer, returned, raised}
use pyreticulate.Access.Modules.{Entry, py_list_submodules}
use pyreticulate.Access.Statics.{static_calls}
use pyreticulate.Access.Statics.Kept.{static_calls-raised}
use pyreticulate.Readline.{c_string}
use pyreticulate.Result.{interrupted}
use pyreticulate.Fetch.{Exception, Fetching, py_fetch_error}
use pyreticulate.Fetch.Interrupts.{py_fetch_error-again}
use pyreticulate.Interp.Buffers.{working}
use pyreticulate.Signals.Machine.{check_user_interrupt}
use pyreticulate.Examples.Values.{quiet, idle, globals, plain_head, ascii, builders}

-- Two scopes, with the signal in the inner one.
abbrev interrupted_run : List Event
interrupted_run = register ∷ enter ∷ enter ∷ sigint ∷ ask true ∷ leave ∷ leave ∷ []

abbrev path : Bytes
path = codes "/a"

path-Encodes : Encodes ascii path path
path-Encodes =
    char refl refl (omega arith) (omega arith) (char refl refl (omega arith) (omega arith) nothing)

abbrev main_frame : Frame
main_frame = record { filename = ok (codes "a.py"); funcname = ok (codes "main") }

abbrev called_frame : Frame
called_frame = record { filename = ok (codes "a.py"); funcname = ok (codes "f") }

abbrev frames : List Frame
frames = called_frame ∷ main_frame ∷ []

frames-Named : Named frames (([] ++ (codes "main" ++ codes " ")) ++ (codes "f" ++ codes " "))
frames-Named = called refl refl (called refl refl outermost)

abbrev one_round : List (List (List Frame))
one_round = (frames ∷ []) ∷ []

abbrev one_line : List (List Bytes)
one_line =
    ((codes "THREAD: ["
        ++ (([] ++ (codes "main" ++ codes " ")) ++ (codes "f" ++ codes " "))
        ++ codes "]\n")
      ∷ [])
    ∷ []

one_round-Rounds : Rounds one_round one_line
one_round-Rounds = round (thread frames-Named no_thread) asleep

abbrev tracing : Tracing
tracing = record { locks = 0; printed = []; slept_ms = 0; terminated = false }

abbrev builtins : Builtins
builtins = record {
  none_ = 3;
  true_ = 4;
  false_ = 5;
  str = 21;
  bytes = 13;
  int_ = 10;
  list = 14;
  tuple = 15;
  dict = 16;
}

builders-IsCpython : IsCpython builders builtins
builders-IsCpython = record {
  none_value = refl;
  str_value = refl;
  bytes_value = refl;
  int_value = refl;
  true_value = refl;
  false_value = refl;
  list_value = refl;
  tuple_value = refl;
  dict_value = refl;
}

abbrev os : Bytes
os = codes "os"

abbrev module_table : List Entry
module_table =
    record { key = record plain_head { ob_type = 21 }; name = codes "os.path"; value = plain_head }
    ∷ []

abbrev two_answers : List (Answer Head)
two_answers = returned plain_head ∷ raised 5 ∷ []

abbrev registered : Machine
registered = record { signals = quiet; scopes = []; installed = true; unanswered = false }

abbrev no_exception : Option Exception
no_exception = none

abbrev after_r : Fetching
after_r = record {
  interp = idle;
  signals = record { py_pending = 1; r_pending = 0; r_suspended = 0; set_interrupt_calls = 1 };
  excess = 0;
  warnings = 0;
}

run-reported_example :
    let m = run interrupted_run (start quiet) in
    ((py_interrupts_pending false m.signals).0 ≡ not (get_interrupts_suspended quiet))
    × (get_interrupts_pending (py_interrupts_pending true m.signals).1
        ≡ get_interrupts_suspended quiet)
    × (get_interrupts_suspended m.signals ≡ get_interrupts_suspended quiet)
unfolding start step register_interrupt_handler deliver open_scope close_scope ask_pending
    interrupt_handler enter_scope leave_scope py_interrupts_pending run
run-reported_example = run-reported quiet interrupted_run refl refl

to_string-to_wstring_example :
    (to_wstring ascii path ≡ ok path) × (to_string ascii path ≡ (ok path, 0))
unfolding c_string
to_string-to_wstring_example =
    to_string-to_wstring ascii path path refl refl path-Encodes (omega arith)

trace_thread_main-Rounds_example : trace_thread_main 100 one_round tracing ≡ record tracing {
  printed = onto_all one_line tracing.printed;
  slept_ms = tracing.slept_ms + length one_line * 100;
}
trace_thread_main-Rounds_example =
    trace_thread_main-Rounds 100 tracing one_round one_line refl one_round-Rounds

py_list_submodules-python3_example :
    py_list_submodules
      (with_type_objects (initialize_type_objects builders true) globals)
      os
      module_table
    ≡ []
py_list_submodules-python3_example =
    py_list_submodules-python3 builders builtins globals os module_table builders-IsCpython refl
      refl

static_calls-raised_example : static_calls (raised 5 ∷ two_answers) none idle ≡ (
  err python_exception ∷ map (λ a. err (stop "Unknown Python error.")) two_answers,
  some none,
  clear idle,
)
static_calls-raised_example = static_calls-raised 5 two_answers idle refl refl

py_fetch_error-again_example :
    (get_interrupts_pending after_r.signals ≡ false)
    × ((py_fetch_error globals 7 8 working working no_exception after_r).0 ≡ err interrupted)
unfolding run step deliver check_user_interrupt interrupt_handler
py_fetch_error-again_example =
    py_fetch_error-again globals 7 8 working working no_exception after_r registered refl refl refl

run-unanswered_example :
    let m = run interrupted_run (start quiet) in
    (not m.unanswered || (get_interrupts_pending m.signals || put_aside m.scopes) ≡ true)
    × (not (is_cons m.scopes) || get_interrupts_suspended m.signals ≡ true)
run-unanswered_example = run-unanswered quiet interrupted_run
