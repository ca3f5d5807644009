-- ===== src/EventLoop/Guarded.antt =====
-- A poll of event_loop.cpp as a stretch of the steps of Signals/Machine: R processes its events between
-- the ends of the suspending scope.
use pyreticulate.Base.{
  ℕ, ◌≡◌, refl, sym, ◌∙◌, ap, arith, not, Bool, true, false, List, [], ◌∷◌, ◌++◌, all_of,
}
use pyreticulate.Signals.{
  Signals, SuspendedScope, get_interrupts_suspended, py_interrupts_pending, enter_scope,
  leave_scope, in_scope,
}
use pyreticulate.Signals.Machine.{
  Event, register, sigint, r_notice, r_check, enter, leave, enter_hit, leave_hit, ask, fetch,
  Machine, step, run, start, register_interrupt_handler, deliver, open_scope, close_scope,
  ask_pending, check_user_interrupt,
}
use pyreticulate.Signals.Machine.Kept.{run-reported}
use pyreticulate.EventLoop.{Loop, flush, poll_body, poll_for_events}

-- Not an end of a scope.
abbrev pub is_inner : Event → Bool
is_inner enter = false
is_inner leave = false
is_inner enter_hit = false
is_inner leave_hit = false
is_inner _ = true

step-scopes : (e : Event) (m : Machine) → is_inner e ≡ true → (step e m).scopes ≡ m.scopes
unfolding step register_interrupt_handler deliver ask_pending check_user_interrupt
step-scopes register m inner = refl
step-scopes sigint m inner = refl
step-scopes r_notice m inner = refl
step-scopes r_check m inner = ground arith
step-scopes enter m inner = cc
step-scopes leave m inner = cc
step-scopes enter_hit m inner = cc
step-scopes leave_hit m inner = cc
step-scopes (ask reset) m inner = refl
step-scopes fetch m inner = refl

run-scopes :
    (es : List Event) (m : Machine) → all_of is_inner es ≡ true → (run es m).scopes ≡ m.scopes
unfolding run
run-scopes [] m inner = refl
run-scopes (e ∷ es) m inner =
    run-scopes es (step e m) (ground (arith, inner)) ∙ step-scopes e m (ground (arith, inner))

run-append : (es fs : List Event) (m : Machine) → run (es ++ fs) m ≡ run fs (run es m)
unfolding run
run-append [] fs m = refl
run-append (e ∷ es) fs m = run-append es fs (step e m)

-- What the events do to the flags inside of the scope that is opened in `m`.
abbrev pub process : List Event → Machine → Signals → Signals
process es m signals = (run es (record (open_scope m) { signals = signals })).signals

-- The events between the ends of the scope.
abbrev pub guarded : List Event → List Event
guarded es = enter ∷ (es ++ (leave ∷ []))

close_scope-leave_scope :
    (m : Machine) (scope : SuspendedScope) (outer : List SuspendedScope)
    → m.scopes ≡ scope ∷ outer
    → (close_scope m).signals ≡ leave_scope scope m.signals
unfolding close_scope
close_scope-leave_scope m scope outer e = ground (arith, e)

guarded-in_scope :
    (es : List Event) (m : Machine)
    → all_of is_inner es ≡ true
    → (run (guarded es) m).signals ≡ in_scope (process es m) m.signals
unfolding run step open_scope in_scope
guarded-in_scope es m inner =
    let m1 = open_scope m in
    ap (λ (t : Machine). t.signals) (run-append es (leave ∷ []) m1)
    ∙ close_scope-leave_scope (run es m1) (enter_scope m.signals).0 m.scopes
        (run-scopes es m1 inner)

poll_for_events-in_scope :
    (process_events : Signals → Signals) (status : ℕ) (s : Loop)
    → (poll_for_events process_events status s).signals ≡ in_scope process_events s.signals
unfolding poll_for_events poll_body flush
poll_for_events-in_scope process_events status s = ground arith

-- A poll, in which R meets any events but the ends of a scope: the flags behind it are those that the
-- events leave between the two ends of a scope.
pub poll_for_events-run :
    (es : List Event) (m : Machine) (status : ℕ) (s : Loop)
    → all_of is_inner es ≡ true
    → m.signals ≡ s.signals
    → (poll_for_events (process es m) status s).signals ≡ (run (guarded es) m).signals
poll_for_events-run es m status s inner same =
    poll_for_events-in_scope (process es m) status s
    ∙ ap (in_scope (process es m)) (sym same)
    ∙ sym (guarded-in_scope es m inner)

close_scope-scopes :
    (m : Machine) (scope : SuspendedScope) (outer : List SuspendedScope)
    → m.scopes ≡ scope ∷ outer
    → (close_scope m).scopes ≡ outer
unfolding close_scope
close_scope-scopes m scope outer e = ground (arith, e)

guarded-scopes :
    (es : List Event) (m : Machine)
    → all_of is_inner es ≡ true
    → (run (guarded es) m).scopes ≡ m.scopes
unfolding run step open_scope
guarded-scopes es m inner =
    let m1 = open_scope m in
    ap (λ (t : Machine). t.scopes) (run-append es (leave ∷ []) m1)
    ∙ close_scope-scopes (run es m1) (enter_scope m.signals).0 m.scopes (run-scopes es m1 inner)

-- An interrupt that was pending before a poll, or that comes while R processes its events in the poll,
-- and that nobody has taken: behind the poll py_interrupts_pending reports it, unless interrupts were
-- suspended before; and they are suspended exactly as before.
pub poll_for_events-reported :
    (es : List Event) (status : ℕ) (s : Loop)
    → all_of is_inner es ≡ true
    → (run (guarded es) (start s.signals)).unanswered ≡ true
    → let t = poll_for_events (process es (start s.signals)) status s in
      ((py_interrupts_pending false t.signals).0 ≡ not (get_interrupts_suspended s.signals))
      × (get_interrupts_suspended t.signals ≡ get_interrupts_suspended s.signals)
unfolding start
poll_for_events-reported es status s inner owed =
    let m = start s.signals in
    let same = poll_for_events-run es m status s inner refl in
    let (reported, taken, suspended) =
      run-reported s.signals (guarded es) (guarded-scopes es m inner) owed in
    (
      ap (λ u. (py_interrupts_pending false u).0) same ∙ reported,
      ap (λ (u : Signals). get_interrupts_suspended u) same ∙ suspended,
    )
