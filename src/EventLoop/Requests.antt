-- ===== src/EventLoop/Requests.antt =====
-- The life of a request of event_loop.cpp, over all interleavings of the worker and the main thread.
use pyreticulate.Base.{ℕ, suc, ◌+◌, ◌≤◌, ◌≡◌, ◌≢◌, refl, ◌⊎◌, arith}
use native.Mathlib.Decide.{dec_lt}
use pyreticulate.Signals.{Signals}
use pyreticulate.EventLoop.{
  Loop, Worker, sleeping, tested, raised, initialize, poll_for_events, Step, wake, raise, schedule,
  drop, poll, Reach, here, next,
}

-- The flag is 0 or 1, and 1 from the worker's write to the poll's; a request is in CPython's queue
-- at most once, and only under the flag.
pub record IsTracked (s : Loop) : Type 0 where
  pub flag_bound : s.requested ≤ 1
  pub queue_bound : s.queued ≤ s.requested
  pub tested_clear : s.worker ≡ tested → s.requested ≡ 0
  pub raised_set : s.worker ≡ raised → (s.requested ≡ 1) × (s.queued ≡ 0)

-- No request is out and no poll is queued, but the flag says that one is.
pub record IsWedged (s : Loop) : Type 0 where
  pub flag_set : s.requested ≡ 1
  pub none_queued : s.queued ≡ 0
  pub asleep : s.worker ≡ sleeping

poll_step-IsTracked :
    (process_events : Signals → Signals) (s : Loop) (q status : ℕ)
    → s.queued ≡ suc q
    → IsTracked s
    → IsTracked (poll_for_events process_events status (record s { queued = q }))
unfolding poll_for_events
poll_step-IsTracked process_events s q status e v = ground arith

module _ {process_events : Signals → Signals} where
  step-IsTracked : {s t : Loop} → Step process_events s t → IsTracked s → IsTracked t
  step-IsTracked (wake s w r) v = ground arith
  step-IsTracked (raise s w) v = ground arith
  step-IsTracked (schedule s w) v = ground arith
  step-IsTracked (drop s w) v = ground arith
  step-IsTracked (poll s q status e) v = poll_step-IsTracked process_events s q status e v

  pub Reach-IsTracked : {s t : Loop} → IsTracked s → Reach process_events s t → IsTracked t
  Reach-IsTracked v here = v
  Reach-IsTracked v (next r st) = step-IsTracked st (Reach-IsTracked v r)

  step-IsWedged : {s t : Loop} → Step process_events s t → IsWedged s → IsWedged t
  step-IsWedged (wake s w r) v = ground arith
  step-IsWedged (raise s w) v = ground arith
  step-IsWedged (schedule s w) v = ground arith
  step-IsWedged (drop s w) v = ground arith
  step-IsWedged (poll s q status e) v = ground arith

  pub Reach-IsWedged : {s t : Loop} → IsWedged s → Reach process_events s t → IsWedged t
  Reach-IsWedged v here = v
  Reach-IsWedged v (next r st) = step-IsWedged st (Reach-IsWedged v r)

pub initialize-IsTracked : (signals : Signals) → IsTracked (initialize signals)
unfolding initialize
initialize-IsTracked signals = ground arith

-- From the start of the event loop, whatever the order of the worker's and the main thread's steps,
-- whether or not CPython finds room for a call, and whatever R's event processing does to the
-- signals: CPython's queue never holds more than one poll, and it holds none while the flag is 0.
pub queued_bound :
    (process_events : Signals → Signals) (signals : Signals) (s : Loop)
    → Reach process_events (initialize signals) s
    → (s.queued ≤ 1) × (s.requested ≡ 0 → s.queued ≡ 0)
queued_bound process_events signals s r =
    let v = Reach-IsTracked (initialize-IsTracked signals) r in (omega arith, omega arith)

-- Once `Py_AddPendingCall` has failed for a request of a loop in a state that the start leads to,
-- the flag stays set, and no poll is ever queued or requested again, by any further steps.
pub drop-never_polls :
    (process_events : Signals → Signals) (signals : Signals) (s t : Loop)
    → Reach process_events (initialize signals) s
    → s.worker ≡ raised
    → Reach process_events (record s { worker = sleeping }) t
    → (t.queued ≡ 0) × (t.requested ≡ 1) × (t.worker ≡ sleeping)
drop-never_polls process_events signals s t r w later =
    let v = Reach-IsTracked (initialize-IsTracked signals) r in
    let dead = Reach-IsWedged (ground arith) later in (dead.none_queued, dead.flag_set, dead.asleep)

-- From every state of a running loop in which a request is not lost (the flag is 0, or a poll is
-- queued, or the worker is past its test), the worker and CPython can go on so that a poll is
-- queued.
pub queued_reached :
    (process_events : Signals → Signals) (s : Loop)
    → IsTracked s
    → (s.requested ≡ 0) ⊎ (s.queued ≡ 1) ⊎ (s.worker ≢ sleeping)
    → (t : Loop) × Reach process_events s t × (t.queued ≡ 1)
queued_reached process_events s v h = by_worker s.worker refl
  where
    from_raised :
        (u : Loop)
        → u.worker ≡ raised
        → u.queued ≡ 0
        → Reach process_events s u
        → (t : Loop) × Reach process_events s t × (t.queued ≡ 1)
    from_raised u w q r =
        (record u { worker = sleeping; queued = u.queued + 1 }, next r (schedule u w), omega arith)

    from_tested :
        (u : Loop)
        → u.worker ≡ tested
        → u.queued ≡ 0
        → Reach process_events s u
        → (t : Loop) × Reach process_events s t × (t.queued ≡ 1)
    from_tested u w q r =
        from_raised (record u { worker = raised; requested = 1 }) refl q (next r (raise u w))

    by_worker : (w : Worker) → s.worker ≡ w → (t : Loop) × Reach process_events s t × (t.queued ≡ 1)
    by_worker raised e = from_raised s e (v.raised_set e).1 here
    by_worker tested e = from_tested s e (ground (arith, v.tested_clear e)) here
    by_worker sleeping e = elim (dec_lt 0 s.queued) [
      | yes q ↦ (s, here, omega (arith, v.flag_bound, v.queue_bound))
      | no q ↦
          from_tested (record s { worker = tested }) refl (omega arith)
            (next here (wake s e (ground arith)))
    ]
