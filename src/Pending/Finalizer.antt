-- ===== src/Pending/Finalizer.antt =====
-- The scheduling of a finalizer (`Rcpp_precious_remove_main_thread` of python.cpp) ends.
use pyreticulate.Base.{
  ap, ◌∙◌, ℕ, zero, suc, ◌+◌, ◌*◌, ◌%◌, ◌<◌, ◌≤◌, ◌≡◌, refl, ◌⊎◌, inl, inr, Bool, true, false, ◌==◌,
  ltb, arith, Bool-cases,
}
use native.Mathlib.Decide.{dec_lt}
use pyreticulate.Pending.{
  wait_ms, scheduled, gave_up, Scheduling, remove_loop, removed_now, later, remove_main_thread,
}

-- The loop ended at the first attempt that was accepted, or gave up when none of the 1201 attempts
-- was.
pub data Ended (accepts : ℕ → Bool) (s : Scheduling) : Type 0 where
  at_first :
      (n : ℕ)
      → s.ending ≡ scheduled n
      → n ≤ 1200
      → accepts n ≡ true
      → ((i : ℕ) → i < n → accepts i ≡ false)
      → s.errors ≡ 0
      → Ended accepts s
  never :
      s.ending ≡ gave_up → ((i : ℕ) → i ≤ 1200 → accepts i ≡ false) → s.errors ≡ 1 → Ended accepts s

extend :
    (accepts : ℕ → Bool) (n : ℕ)
    → ((i : ℕ) → i < n → accepts i ≡ false)
    → accepts n ≡ false
    → (i : ℕ) → i < suc n
    → accepts i ≡ false
extend accepts n before here i h = elim (dec_lt i n) [
  | yes p ↦ before i p
  | no p ↦ (let e : i ≡ n = omega arith in ap accepts e) ∙ here
]

late_bound : (n i : ℕ) → ltb 120000 (suc n * 100) ≡ true → i ≤ 1200 → i < suc n
late_bound n i late h = ground arith

early_bound : (n : ℕ) → ltb 120000 (suc n * 100) ≡ false → suc n ≤ 1200
early_bound n early = ground arith

remove_loop-Ended :
    (accepts : ℕ → Bool) (fuel attempt warnings : ℕ)
    → attempt + fuel ≡ 1202
    → attempt ≤ 1200
    → ((i : ℕ) → i < attempt → accepts i ≡ false)
    → Ended accepts (remove_loop accepts fuel attempt (attempt * 100) warnings)
unfolding remove_loop
remove_loop-Ended accepts zero attempt warnings total small before = absurd (omega arith)
remove_loop-Ended accepts (suc fuel) attempt warnings total small before =
    elim (Bool-cases (accepts attempt)) [
      | inl yes_now ↦ rw yes_now (at_first attempt refl small yes_now before refl)
      | inr not_now ↦
          let next : attempt * 100 + wait_ms ≡ suc attempt * 100 = omega arith in
          let before' = extend accepts attempt before not_now in
          rw (not_now, next)
            (elim (Bool-cases (suc attempt * 100 % 60000 == 0)) [
              | inl warn ↦ rw warn (
                  remove_loop-Ended accepts fuel (suc attempt) (suc warnings) (omega arith)
                    (ground arith) before')
              | inr quiet ↦ elim (Bool-cases (ltb 120000 (suc attempt * 100))) [
                | inl late ↦
                    rw (quiet, late)
                      (never refl (λ i h. before' i (late_bound attempt i late h)) refl)
                | inr early ↦
                    rw (quiet, early)
                      (remove_loop-Ended accepts fuel (suc attempt) warnings (omega arith)
                        (early_bound attempt early) before')
              ]
            ])
    ]

-- Whatever CPython answers, the loop of the finalizer ends within its 1202 rounds of fuel: on the
-- main thread the object is removed at once; otherwise the removal is scheduled at the first attempt
-- that CPython accepts, without an error, or, if none of 1201 attempts is accepted, it is given up
-- and an error is printed.
pub remove_main_thread_lem :
    (accepts : ℕ → Bool) (is_main_thread : Bool)
    → (is_main_thread ≡ true) × (remove_main_thread accepts is_main_thread ≡ removed_now)
      ⊎ (is_main_thread ≡ false)
        × ((s : Scheduling) × (remove_main_thread accepts is_main_thread ≡ later s)
            × Ended accepts s)
unfolding remove_main_thread
remove_main_thread_lem accepts true = inl (refl, refl)
remove_main_thread_lem accepts false = inr (
  refl,
  (
    remove_loop accepts 1202 0 0 0,
    refl,
    remove_loop-Ended accepts 1202 0 0 (omega arith) (omega arith) (λ i h. absurd (omega arith)),
  ),
)
