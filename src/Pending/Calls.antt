-- ===== src/Pending/Calls.antt =====
-- Calls that are scheduled on the main thread (python.cpp).
use pyreticulate.Base.{
  ℕ, zero, suc, ◌+◌, ◌%◌, ◌<◌, ◌≡◌, ap, ◌∙◌, Bool, true, false, ◌==◌, if◌then◌else◌, arith, Option,
  none, some, Bool-cases, inl, inr,
}
use pyreticulate.Base.Int.{pos, negsuc}
use pyreticulate.Pending.{
  wait_ms, scheduled, schedule_loop, Refs, call_python_function, call_on_main_thread,
}

schedule_loop-scheduled :
    (accepts : ℕ → Bool) (fuel attempt k waited warnings : ℕ)
    → k < fuel
    → ((i : ℕ) → i < k → accepts (attempt + i) ≡ false)
    → accepts (attempt + k) ≡ true
    → (schedule_loop accepts fuel attempt waited warnings).ending ≡ scheduled (attempt + k)
unfolding schedule_loop
schedule_loop-scheduled accepts zero attempt k waited warnings small before now =
    absurd (omega arith)
schedule_loop-scheduled accepts (suc fuel) attempt zero waited warnings small before now =
    let e : attempt + 0 ≡ attempt = omega arith in rw (e, (rw e at now))
schedule_loop-scheduled accepts (suc fuel) attempt (suc k) waited warnings small before now =
    let e : attempt + 0 ≡ attempt = omega arith in
    let first : accepts attempt ≡ false = rw e at (before 0 (omega arith)) in
    let step : attempt + suc k ≡ suc attempt + k = omega arith in
    let ih = λ (w : ℕ).
      schedule_loop-scheduled accepts fuel (suc attempt) k (waited + wait_ms) w (omega arith)
        (λ i h.
          (ap accepts (let s : suc attempt + i ≡ attempt + suc i = omega arith in s))
          ∙ before (suc i) (omega arith))
        (rw step at now) in
    rw (first, step)
      (elim (Bool-cases ((waited + wait_ms) % 60000 == 0)) [
        | inl warn ↦ rw warn (ih (suc warnings))
        | inr quiet ↦ rw quiet (ih warnings)
      ])

-- A call is scheduled at the first attempt that CPython accepts, the `k`-th from 0, whenever there
-- is one, on any fuel above it. Once CPython has run the callback, whether or not the function
-- raises, every reference that the scheduling and the callback took to the function, its data and
-- the result has been given back; the status is 0 exactly without an exception; and None as data
-- means that the function is called without an argument.
pub call_on_main_thread_lem :
    (accepts : ℕ → Bool) (fuel k : ℕ) (r : Refs) (call : Option ℕ → Bool) (py_none datum : ℕ)
    → k < fuel
    → ((i : ℕ) → i < k → accepts i ≡ false)
    → accepts k ≡ true
    → let (s, r1) = call_on_main_thread accepts fuel r in
      let (status, r2) = call_python_function call py_none datum r1 in
      (s.ending ≡ scheduled k)
      × (r2.func + r.func_released ≡ r2.func_released + r.func)
      × (r2.data_ref + r.data_released ≡ r2.data_released + r.data_ref)
      × (r2.result + r.result_released ≡ r2.result_released + r.result)
      × (status
          ≡ (if call (if datum == py_none then none else some datum) then pos 0 else negsuc 0))
unfolding call_on_main_thread call_python_function
call_on_main_thread_lem accepts fuel k r call py_none datum small before now = (
  schedule_loop-scheduled accepts fuel 0 k 0 0 small
        (λ i h. ap accepts (let e : 0 + i ≡ i = omega arith in e) ∙ before i h)
        (ap accepts (let e : 0 + k ≡ k = omega arith in e) ∙ now)
      ∙ ap scheduled (let e : 0 + k ≡ k = omega arith in e),
  ground arith,
  ground arith,
  ground arith,
  ground arith,
)
