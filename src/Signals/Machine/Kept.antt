-- ===== src/Signals/Machine/Kept.antt =====
-- Which interrupts are kept along the steps of Signals/Machine, however scopes nest, and which are lost.
use pyreticulate.Base.{◌≡◌, refl, arith, ◌||◌, not, Bool, true, false, List, [], ◌∷◌, nonzero}
use pyreticulate.Signals.{
  Signals, SuspendedScope, get_interrupts_pending, get_interrupts_suspended, py_interrupts_pending,
  interrupt_handler, enter_scope, leave_scope,
}
use pyreticulate.Signals.Machine.{
  Event, register, sigint, r_notice, r_check, enter, leave, enter_hit, leave_hit, ask, fetch,
  Machine, step, run, start, register_interrupt_handler, deliver, take_interrupt, open_scope,
  close_scope, ask_pending, check_user_interrupt, open_scope_hit, close_scope_hit,
}

-- One of the scopes has put an interrupt aside.
abbrev pub put_aside : List SuspendedScope → Bool
put_aside [] = false
put_aside (scope ∷ outer) = nonzero scope.pending || put_aside outer

-- Interrupts are suspended in a scope, and were so, as `outside` says, ahead of the outermost.
abbrev IsNested : Bool → Bool → List SuspendedScope → Type 0
IsNested outside suspended [] = suspended ≡ outside
IsNested outside suspended (scope ∷ outer) =
    (suspended ≡ true) × IsNested outside (nonzero scope.suspended) outer

abbrev pub is_cons : List SuspendedScope → Bool
is_cons [] = false
is_cons (scope ∷ outer) = true

abbrev IsKept : Machine → Type 0
IsKept m = not m.unanswered || (get_interrupts_pending m.signals || put_aside m.scopes) ≡ true

step-IsKept : (e : Event) (m : Machine) → IsKept m → IsKept (step e m)
unfolding step register_interrupt_handler deliver take_interrupt open_scope close_scope ask_pending
    check_user_interrupt interrupt_handler py_interrupts_pending enter_scope leave_scope
    open_scope_hit close_scope_hit
step-IsKept register m k = k
step-IsKept sigint m k = ground (arith, k)
step-IsKept r_notice m k = ground (arith, k)
step-IsKept r_check m k = ground (arith, k)
step-IsKept enter m k = ground (arith, k)
step-IsKept leave m k = ground (arith, k)
step-IsKept enter_hit m k = ground (arith, k)
step-IsKept leave_hit m k = ground (arith, k)
step-IsKept (ask reset) m k = ground (arith, k)
step-IsKept fetch m k = ground (arith, k)

abbrev IsGuarded : Bool → Machine → Type 0
IsGuarded outside m = IsNested outside (get_interrupts_suspended m.signals) m.scopes

step-IsGuarded :
    (outside : Bool) (e : Event) (m : Machine) → IsGuarded outside m → IsGuarded outside (step e m)
unfolding step register_interrupt_handler deliver take_interrupt open_scope close_scope ask_pending
    check_user_interrupt interrupt_handler py_interrupts_pending enter_scope leave_scope
    open_scope_hit close_scope_hit
step-IsGuarded outside register m k = k
step-IsGuarded outside sigint m k = ground (arith, k)
step-IsGuarded outside r_notice m k = ground (arith, k)
step-IsGuarded outside r_check m k = ground (arith, k)
step-IsGuarded outside enter m k = ground (arith, k)
step-IsGuarded outside leave m k = ground (arith, k)
step-IsGuarded outside enter_hit m k = ground (arith, k)
step-IsGuarded outside leave_hit m k = ground (arith, k)
step-IsGuarded outside (ask reset) m k = ground (arith, k)
step-IsGuarded outside fetch m k = ground (arith, k)

run-IsKept : (es : List Event) (m : Machine) → IsKept m → IsKept (run es m)
unfolding run
run-IsKept [] m k = k
run-IsKept (e ∷ es) m k = run-IsKept es (step e m) (step-IsKept e m k)

run-IsGuarded :
    (outside : Bool) (es : List Event) (m : Machine)
    → IsGuarded outside m
    → IsGuarded outside (run es m)
unfolding run
run-IsGuarded outside [] m g = g
run-IsGuarded outside (e ∷ es) m g =
    run-IsGuarded outside es (step e m) (step-IsGuarded outside e m g)

-- Along every sequence of steps, an interrupt that nobody has taken, and that came at no point inside
-- the reading and writing of a scope's end, is pending in R's flag or put
-- aside by a scope that is still open; and interrupts are suspended while a scope is open.
pub run-unanswered :
    (s : Signals) (es : List Event)
    → let m = run es (start s) in
      (not m.unanswered || (get_interrupts_pending m.signals || put_aside m.scopes) ≡ true)
      × (not (is_cons m.scopes) || get_interrupts_suspended m.signals ≡ true)
unfolding start
run-unanswered s es =
    let k = run-IsKept es (start s) (ground arith) in
    let g = run-IsGuarded (get_interrupts_suspended s) es (start s) refl in (k, ground (arith, g))

-- Once every scope is left again, an interrupt that nobody has taken, and that was noted outside of the
-- two places where a scope has read the flag and not yet written it, is reported by
-- py_interrupts_pending, and a reset takes it, unless interrupts were suspended from the start; and
-- they are suspended exactly as they were at the start.
pub run-reported :
    (s : Signals) (es : List Event)
    → (run es (start s)).scopes ≡ []
    → (run es (start s)).unanswered ≡ true
    → let m = run es (start s) in
      ((py_interrupts_pending false m.signals).0 ≡ not (get_interrupts_suspended s))
      × (get_interrupts_pending (py_interrupts_pending true m.signals).1
          ≡ get_interrupts_suspended s)
      × (get_interrupts_suspended m.signals ≡ get_interrupts_suspended s)
unfolding start py_interrupts_pending
run-reported s es outside owed =
    let k = run-IsKept es (start s) (ground arith) in
    let g = run-IsGuarded (get_interrupts_suspended s) es (start s) refl in
    (ground (arith, k, g), ground (arith, k, g), ground (arith, g))

-- A signal inside the constructor of a scope, behind the reading of R's flag, is lost to R if the flag was
-- not set before: behind the scope the flag is not set either. The same is so of one inside the
-- destructor.
pub hit-lost :
    (m : Machine)
    → get_interrupts_pending m.signals ≡ false
    → (get_interrupts_pending (run (enter_hit ∷ leave ∷ []) m).signals ≡ false)
      × (get_interrupts_pending (run (enter ∷ leave_hit ∷ []) m).signals ≡ false)
unfolding run step deliver open_scope close_scope open_scope_hit close_scope_hit interrupt_handler
    enter_scope leave_scope
hit-lost m quiet = (ground (arith, quiet), ground (arith, quiet))
