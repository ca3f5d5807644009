-- ===== src/Fetch/Calls/Stack.antt =====
-- What R's own bookkeeping keeps of the calls of python.cpp for its environment, call and trace.
use pyreticulate.Base.{
  ℕ, ◌+◌, ◌≤◌, ◌≡◌, refl, arith, Bool, true, List, [], ◌∷◌, Option, is_some, length, if◌then◌else◌,
  flag, ◌&&◌,
}
use pyreticulate.Fetch.Calls.{
  Rstate, make_call, current_env, get_current_call, get_r_trace, find_trace_function,
}

pub data Which : Type 0 where
  env call trace : Which

module _ (eval : ℕ → Option ℕ) (outer : ℕ) where
  abbrev pub ask : Which → Rstate → Option ℕ × Rstate
  ask env s = current_env eval outer s
  ask call s = get_current_call eval outer s
  ask trace s = get_r_trace eval outer s

  -- Calls in a row, up to the first that R's evaluation does not return to.
  abbrev pub ask_all : List Which → Rstate → Rstate
  ask_all [] s = s
  ask_all (w ∷ ws) s =
      let rest = ask_all ws (ask w s).1 in if is_some (ask w s).0 then rest else (ask w s).1

  -- The objects of the two functions that have been made.
  abbrev pub made : Rstate → ℕ
  made s = flag (is_some s.env_call) + flag (is_some s.call_call)

  ask-height :
      (w : Which) (s : Rstate)
      → (ask w s).1.height ≡ (if is_some (ask w s).0 then s.height else outer)
  unfolding current_env get_current_call get_r_trace make_call find_trace_function
  ask-height env s = ground arith
  ask-height call s = ground arith
  ask-height trace s = ground arith

  ask-precious :
      (w : Which) (s : Rstate)
      → length (ask w s).1.precious + made s ≡ length s.precious + made (ask w s).1
  unfolding current_env get_current_call get_r_trace make_call find_trace_function
  ask-precious env s = ground arith
  ask-precious call s = ground arith
  ask-precious trace s = ground arith

  abbrev pub all_return : List Which → Rstate → Bool
  all_return [] s = true
  all_return (w ∷ ws) s = is_some (ask w s).0 && all_return ws (ask w s).1

  ask_all-precious :
      (ws : List Which) (s : Rstate)
      → length (ask_all ws s).precious + made s ≡ length s.precious + made (ask_all ws s)
  ask_all-precious [] s = refl
  ask_all-precious (w ∷ ws) s = ground (arith, ask-precious w s, ask_all-precious ws (ask w s).1)

  ask_all-height :
      (ws : List Which) (s : Rstate)
      → (ask_all ws s).height ≡ (if all_return ws s then s.height else outer)
  ask_all-height [] s = refl
  ask_all-height (w ∷ ws) s = ground (arith, ask-height w s, ask_all-height ws (ask w s).1)

  -- However often the environment, the call and the trace are asked for, in any order: the protection
  -- stack is as high as before, or where an R error leaves a call, as its catcher finds it; and no more
  -- than two objects are preserved for good.
  pub ask_all-bounded :
      (ws : List Which) (s : Rstate)
      → ((ask_all ws s).height ≡ (if all_return ws s then s.height else outer))
        × (length (ask_all ws s).precious ≤ length s.precious + 2)
  ask_all-bounded ws s = (ask_all-height ws s, ground (arith, ask_all-precious ws s))
