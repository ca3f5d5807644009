-- ===== src/Process/Trace/Lines.antt =====
-- What the thread that prints stacks (python.cpp) writes, and that it gives Python's lock back.
use mathlib.Core.List.{append_assoc, append-nil}
use pyreticulate.Base.{
  ℕ, suc, ◌+◌, ◌*◌, ◌≡◌, refl, ap, arith, true, false, List, [], ◌∷◌, ◌++◌, length,
}
use pyreticulate.Bytes.{Bytes, codes}
use pyreticulate.Result.{ok, err, Failure}
use pyreticulate.Process.Trace.{
  Frame, Tracing, trace_loop, trace_print, print_states, trace_round, trace_thread_main,
}

-- The names of the frames' functions, the outermost first, each with a blank behind it.
pub data Named : List Frame → Bytes → Type 0 where
  outermost : Named [] []
  called :
      {f : Frame} {frames : List Frame} {file name text : Bytes}
      → f.filename ≡ ok file
      → f.funcname ≡ ok name
      → Named frames text
      → Named (f ∷ frames) (text ++ (name ++ codes " "))

trace_loop-Named :
    {frames : List Frame} {text : Bytes} (tracemsg : Bytes)
    → Named frames text
    → trace_loop frames tracemsg ≡ ok (text ++ tracemsg)
unfolding trace_loop
trace_loop-Named tracemsg outermost = refl
trace_loop-Named tracemsg (called {name = name} {text} p q n) = ground (
  arith,
  p,
  q,
  trace_loop-Named (name ++ codes " " ++ tracemsg) n,
  append_assoc text (name ++ codes " ") tracemsg,
  append_assoc name (codes " ") tracemsg,
)

-- The lines for the threads, the first first.
pub data IsPrinted : List (List Frame) → List Bytes → Type 0 where
  no_thread : IsPrinted [] []
  thread :
      {frames : List Frame} {states : List (List Frame)} {text : Bytes} {lines : List Bytes}
      → Named frames text
      → IsPrinted states lines
      → IsPrinted (frames ∷ states) ((codes "THREAD: [" ++ text ++ codes "]\n") ∷ lines)

-- The lines, the last first, ahead of those that were printed before.
abbrev pub onto : List Bytes → List Bytes → List Bytes
onto [] printed = printed
onto (line ∷ lines) printed = onto lines (line ∷ printed)

trace_print-Named :
    {frames : List Frame} {text : Bytes}
    → Named frames text
    → trace_print frames ≡ ok (codes "THREAD: [" ++ text ++ codes "]\n")
unfolding trace_print
trace_print-Named {text = text} n = ground (arith, trace_loop-Named [] n, append-nil text)

print_states-IsPrinted :
    {states : List (List Frame)} {lines : List Bytes} (s : Tracing)
    → IsPrinted states lines
    → print_states states s ≡ record s { printed = onto lines s.printed }
unfolding print_states
print_states-IsPrinted s no_thread = refl
print_states-IsPrinted s (thread {text = text} n p) =
    let line : Bytes = codes "THREAD: [" ++ text ++ codes "]\n" in
    ground (
      arith,
      trace_print-Named n,
      print_states-IsPrinted (record s { printed = line ∷ s.printed }) p,
    )

trace_round-IsPrinted :
    {states : List (List Frame)} {lines : List Bytes} (tracems : ℕ) (s : Tracing)
    → s.terminated ≡ false
    → IsPrinted states lines
    → trace_round tracems states s
      ≡ record s { printed = onto lines s.printed; slept_ms = s.slept_ms + tracems }
unfolding trace_round
trace_round-IsPrinted tracems s alive p =
    ground (arith, alive, print_states-IsPrinted (record s { locks = s.locks + 1 }) p)

-- The lines of each round.
pub data Rounds : List (List (List Frame)) → List (List Bytes) → Type 0 where
  asleep : Rounds [] []
  round :
      {states : List (List Frame)} {rounds : List (List (List Frame))} {lines : List Bytes}
      {more : List (List Bytes)}
      → IsPrinted states lines
      → Rounds rounds more
      → Rounds (states ∷ rounds) (lines ∷ more)

abbrev pub onto_all : List (List Bytes) → List Bytes → List Bytes
onto_all [] printed = printed
onto_all (lines ∷ more) printed = onto_all more (onto lines printed)

-- As long as every name of the frames can be read, each round prints a line for each thread, with the
-- names of its functions from the outermost on, and sleeps once; the lock is given back, and the
-- process goes on.
pub trace_thread_main-Rounds :
    (tracems : ℕ) (s : Tracing) (rounds : List (List (List Frame))) (lines : List (List Bytes))
    → s.terminated ≡ false
    → Rounds rounds lines
    → trace_thread_main tracems rounds s ≡ record s {
      printed = onto_all lines s.printed;
      slept_ms = s.slept_ms + length lines * tracems;
    }
unfolding trace_thread_main
trace_thread_main-Rounds tracems s _ _ alive asleep =
    ap (λ (n : ℕ). record s { slept_ms = n }) (omega arith)
trace_thread_main-Rounds tracems s _ _ alive (round {states} {rounds} {lines} {more} p r) =
    let s' : Tracing = record s {
      printed = onto lines s.printed;
      slept_ms = s.slept_ms + tracems;
    } in
    let next = trace_thread_main-Rounds tracems s' rounds more alive r in
    let slept : s.slept_ms + tracems + length more * tracems
        ≡ s.slept_ms + suc (length more) * tracems =
      omega arith in
    ground (arith, alive, trace_round-IsPrinted tracems s alive p, next, slept)

trace_thread_main-terminated :
    (tracems : ℕ) (s : Tracing) (rounds : List (List (List Frame)))
    → s.terminated ≡ true
    → trace_thread_main tracems rounds s ≡ s
unfolding trace_thread_main
trace_thread_main-terminated tracems s [] dead = refl
trace_thread_main-terminated tracems s (states ∷ rounds) dead = ground (arith, dead)

print_states-unreadable :
    {states : List (List Frame)} {lines : List Bytes} (s : Tracing) (others : List (List Frame))
    (frames : List Frame) (e : Failure)
    → trace_print frames ≡ err e
    → IsPrinted states lines
    → print_states (states ++ (frames ∷ others)) s
      ≡ record s { printed = onto lines s.printed; terminated = true }
unfolding print_states
print_states-unreadable s others frames e bad no_thread = ground (arith, bad)
print_states-unreadable s others frames e bad (thread {text = text} n p) =
    let line : Bytes = codes "THREAD: [" ++ text ++ codes "]\n" in
    ground (
      arith,
      trace_print-Named n,
      print_states-unreadable (record s { printed = line ∷ s.printed }) others frames e bad p,
    )

-- A thread whose stack cannot be printed, behind others that are: the process ends in that round, with
-- the lock held, whatever the rounds to come are, and the stacks ahead are printed.
pub trace_thread_main-unreadable :
    (tracems : ℕ) (s : Tracing) (states others : List (List Frame)) (lines : List Bytes)
    (frames : List Frame) (e : Failure) (rounds : List (List (List Frame)))
    → s.terminated ≡ false
    → IsPrinted states lines
    → trace_print frames ≡ err e
    → trace_thread_main tracems ((states ++ (frames ∷ others)) ∷ rounds) s
      ≡ record s { printed = onto lines s.printed; locks = s.locks + 1; terminated = true }
unfolding trace_thread_main trace_round
trace_thread_main-unreadable tracems s states others lines frames e rounds alive p bad =
    let s' : Tracing = record s {
      printed = onto lines s.printed;
      locks = s.locks + 1;
      terminated = true;
    } in
    ground (
      arith,
      alive,
      print_states-unreadable (record s { locks = s.locks + 1 }) others frames e bad p,
      trace_thread_main-terminated tracems s' rounds refl,
    )
