-- ===== src/Process/Trace.antt =====
-- The thread that prints the stacks of Python's threads (`trace_print`, `trace_thread_main` and
-- `trace_thread_init` of python.cpp). A frame is what `as_std_string` gives of the names of its file
-- and function. A thread's main function that throws ends the process (`std::terminate`). What
-- `PySys_WriteStderr` does with the text, which it takes for a format, is CPython's.
pub mod Lines
use pyreticulate.Base.{
  ℕ, suc, ◌+◌, ◌*◌, ◌≡◌, refl, sym, ◌∙◌, arith, Bool, true, false, List, [], ◌∷◌, ◌++◌,
}
use pyreticulate.Bytes.{Bytes, codes}
use pyreticulate.Result.{Result, ok, err, Failure}

pub record Frame : Type 0 where
  pub filename : Result Bytes
  pub funcname : Result Bytes

-- The loop over the frames, the innermost first.
unfoldable pub trace_loop : List Frame → Bytes → Result Bytes
trace_loop [] tracemsg = ok tracemsg
trace_loop (f ∷ frames) tracemsg = elim f.filename [
  | err e ↦ err e
  | ok file ↦ elim f.funcname [
    | err e ↦ err e
    | ok name ↦ trace_loop frames (name ++ codes " " ++ tracemsg)
  ]
]

unfoldable pub trace_print : List Frame → Result Bytes
unfolding trace_loop
trace_print frames = elim (trace_loop frames []) [
  | err e ↦ err e
  | ok tracemsg ↦ ok (codes "THREAD: [" ++ tracemsg ++ codes "]\n")
]

pub record Tracing : Type 0 where
  pub locks : ℕ  -- PyGILState_Ensure without its PyGILState_Release
  pub printed : List Bytes  -- the arguments of PySys_WriteStderr, the last first
  pub slept_ms : ℕ
  pub terminated : Bool

-- The loop over the states of Python's threads.
unfoldable pub print_states : List (List Frame) → Tracing → Tracing
unfolding trace_print
print_states [] s = s
print_states (frames ∷ states) s = elim (trace_print frames) [
  | err e ↦ record s { terminated = true }
  | ok tracemsg ↦ print_states states (record s { printed = tracemsg ∷ s.printed })
]

-- One round of trace_thread_main.
unfoldable pub trace_round : ℕ → List (List Frame) → Tracing → Tracing
unfolding print_states
trace_round tracems states s =
    let s' = print_states states (record s { locks = s.locks + 1 }) in
    elim s'.terminated [
      | true ↦ s'
      | false ↦ record s' { locks = s.locks; slept_ms = s'.slept_ms + tracems }
    ]

-- The rounds, by the threads that each finds: the loop has no end but that of the process.
unfoldable pub trace_thread_main : ℕ → List (List (List Frame)) → Tracing → Tracing
unfolding trace_round
trace_thread_main tracems [] s = s
trace_thread_main tracems (states ∷ rounds) s = elim s.terminated [
  | true ↦ s
  | false ↦ trace_thread_main tracems rounds (trace_round tracems states s)
]
