-- ===== src/Examples/Runtime.antt =====
-- The flags, the event loop, the loading, the messages and the pending calls at concrete inputs.
use pyreticulate.Base.{
  List, [], ◌∷◌, not, ℕ, ◌+◌, ◌≤◌, ◌<◌, ◌≡◌, ◌⊎◌, refl, Bool, true, false, ◌&&◌, ◌==◌, ◌++◌, none,
  some, if◌then◌else◌, arith, is_some, any_of,
}
use pyreticulate.Base.Int.{pos, negsuc}
use pyreticulate.Bytes.{Bytes, codes}
use pyreticulate.Signals.{interrupt_handler}
use pyreticulate.Signals.{py_interrupts_pending, enter_scope, leave_scope, get_interrupts_suspended}
use pyreticulate.Signals.Machine.{
  Event, sigint, r_check, ask, run, step, start, open_scope, close_scope, deliver,
  check_user_interrupt, ask_pending,
}
use pyreticulate.EventLoop.{poll_for_events}
use pyreticulate.EventLoop.Guarded.{process, poll_for_events-reported}
use pyreticulate.EventLoop.{
  sleeping, tested, raised, Loop, initialize, Reach, here, next, wake, raise, schedule,
}
use pyreticulate.EventLoop.Requests.{queued_bound, drop-never_polls}
use pyreticulate.Library.{load_symbols, version_symbols}
use pyreticulate.Library.Symbols.{common_symbols, encoder_names, last_symbols}
use pyreticulate.Library.Loading.{all_present, present, load_symbols-present}
use pyreticulate.Pending.{
  remove_main_thread, removed_now, later, Scheduling, scheduled, call_on_main_thread,
  call_python_function,
}
use pyreticulate.Pending.Finalizer.{Ended, remove_main_thread_lem}
use pyreticulate.Pending.Calls.{call_on_main_thread_lem}
use pyreticulate.Examples.Values.{quiet, linker, loader, no_refs}

abbrev woken : Loop
woken = record {
  requested = 0;
  flush_enabled = true;
  worker = tested;
  queued = 0;
  messages = 0;
  signals = quiet;
}

abbrev requesting : Loop
requesting = record woken { worker = raised; requested = 1 }

abbrev polling : Loop
polling = record requesting { worker = sleeping; queued = 1 }

requesting-Reach : Reach interrupt_handler (initialize quiet) requesting
unfolding initialize
requesting-Reach = next (next here (wake (initialize quiet) refl refl)) (raise woken refl)

polling-Reach : Reach interrupt_handler (initialize quiet) polling
polling-Reach = next requesting-Reach (schedule requesting refl)

abbrev only_fourth : ℕ → Bool
only_fourth i = i == 3

abbrev only_second : ℕ → Bool
only_second i = i == 1

abbrev long_message : Bytes
long_message =
    codes
      "ValueError: x\nbad\nand a long end of the message that the limit of the test cuts off in the middle of it"

before_second : (i : ℕ) → i < 1 → only_second i ≡ false
before_second i h = ground arith

queued_bound_example : (polling.queued ≤ 1) × (polling.requested ≡ 0 → polling.queued ≡ 0)
queued_bound_example = queued_bound interrupt_handler quiet polling polling-Reach

drop-never_polls_example :
    ((record requesting { worker = sleeping }).queued ≡ 0)
    × ((record requesting { worker = sleeping }).requested ≡ 1)
    × ((record requesting { worker = sleeping }).worker ≡ sleeping)
drop-never_polls_example =
    drop-never_polls interrupt_handler quiet requesting (record requesting { worker = sleeping })
      requesting-Reach refl here

load_symbols-present_example : (load_symbols linker true true 7 loader).0 ≡ (
    all_present linker 7 common_symbols
    && (any_of (present linker 7) encoder_names
        && all_present linker 7 (version_symbols true true ++ last_symbols)))
load_symbols-present_example = load_symbols-present linker true true 7 loader

remove_main_thread_lem_example :
    (false ≡ true) × (remove_main_thread only_fourth false ≡ removed_now)
    ⊎ (false ≡ false)
      × ((s : Scheduling) × (remove_main_thread only_fourth false ≡ later s) × Ended only_fourth s)
remove_main_thread_lem_example = remove_main_thread_lem only_fourth false

call_on_main_thread_lem_example :
    let (s, r1) = call_on_main_thread only_second 5 no_refs in
    let (status, r2) = call_python_function (is_some {A = ℕ}) 3 9 r1 in
    (s.ending ≡ scheduled 1)
    × (r2.func + no_refs.func_released ≡ r2.func_released + no_refs.func)
    × (r2.data_ref + no_refs.data_released ≡ r2.data_released + no_refs.data_ref)
    × (r2.result + no_refs.result_released ≡ r2.result_released + no_refs.result)
    × (status ≡ (if (is_some {A = ℕ}) (if 9 == 3 then none else some 9) then pos 0 else negsuc 0))
call_on_main_thread_lem_example =
    call_on_main_thread_lem only_second 5 1 no_refs (is_some {A = ℕ}) 3 9 (omega arith)
      before_second refl

abbrev one_signal : List Event
one_signal = sigint ∷ r_check ∷ ask true ∷ []

poll_for_events-reported_example :
    let t = poll_for_events (process one_signal (start woken.signals)) 0 woken in
    ((py_interrupts_pending false t.signals).0 ≡ not (get_interrupts_suspended woken.signals))
    × (get_interrupts_suspended t.signals ≡ get_interrupts_suspended woken.signals)
unfolding run step start open_scope close_scope deliver check_user_interrupt ask_pending
    interrupt_handler enter_scope leave_scope py_interrupts_pending
poll_for_events-reported_example = poll_for_events-reported one_signal 0 woken refl refl
