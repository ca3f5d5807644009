-- ===== src/Fetch/Calls.antt =====
-- The calls of R that find the current environment, the current call and the trace (`current_env`,
-- `get_current_call` and `get_r_trace` of python.cpp), on R's protection stack and its list of precious
-- objects. R's objects are numbers, given out in order. What R's evaluation gives is an argument: `none`
-- is an R error, which leaves by a long jump and sets the stack back to the height that its catcher had.
pub mod Stack
use pyreticulate.Base.{ℕ, suc, ◌+◌, ◌-◌, List, [], ◌∷◌, Option, none, some}

pub record Rstate : Type 0 where
  pub height : ℕ  -- of the protection stack
  pub next : ℕ
  pub precious : List ℕ
  pub env_call : Option ℕ  -- `call` of current_env
  pub call_call : Option ℕ  -- `call` of get_current_call
  pub trace_ready : Option ℕ  -- get_r_trace_s and reticulate_ns

abbrev pub protect : Rstate → Rstate
protect s = record s { height = s.height + 1 }

abbrev pub unprotect : ℕ → Rstate → Rstate
unprotect n s = record s { height = s.height - n }

-- Rf_mkString, R_ParseVector, Rf_allocSExp, Rf_lang1, Rf_lang3 and the scalars.
abbrev pub allocate : Rstate → ℕ × Rstate
allocate s = (s.next, record s { next = suc s.next })

abbrev pub preserve : ℕ → Rstate → Rstate
preserve x s = record s { precious = x ∷ s.precious }

-- The call of a new closure around the parsed text.
unfoldable pub make_call : Rstate → ℕ × Rstate
make_call s =
    let s1 = protect (allocate s).1 in
    let s2 = protect (allocate s1).1 in
    let s3 = protect (allocate s2).1 in
    let (call, s4) = allocate s3 in (call, unprotect 3 (preserve call s4))

module _ (eval : ℕ → Option ℕ) (outer : ℕ) where
  abbrev pub evaluated : Option ℕ → Rstate → Option ℕ × Rstate
  evaluated none s = (none, record s { height = outer })
  evaluated (some v) s = (some v, s)

  unfoldable pub current_env : Rstate → Option ℕ × Rstate
  unfolding make_call
  current_env s = elim s.env_call [
    | some call ↦ evaluated (eval call) s
    | none ↦
        let (call, s1) = make_call s in evaluated (eval call) (record s1 { env_call = some call })
  ]

  unfoldable pub get_current_call : Rstate → Option ℕ × Rstate
  unfolding make_call
  get_current_call s = elim s.call_call [
    | some call ↦ evaluated (eval call) s
    | none ↦
        let (call, s1) = make_call s in evaluated (eval call) (record s1 { call_call = some call })
  ]

  -- The namespace is looked up once, by a text that is not protected, and is not preserved.
  unfoldable pub find_trace_function : Rstate → Rstate
  find_trace_function s = elim s.trace_ready [
    | some namespace ↦ s
    | none ↦ let (namespace, s1) = allocate s in record s1 { trace_ready = some namespace }
  ]

  abbrev pub traced : Option ℕ → Rstate → Option ℕ × Rstate
  traced none s = (none, record s { height = outer })
  traced (some v) s = (some v, unprotect 4 (protect s))

  unfoldable pub get_r_trace : Rstate → Option ℕ × Rstate
  unfolding find_trace_function
  get_r_trace s =
      let s0 = find_trace_function s in
      let s1 = protect (allocate s0).1 in
      let s2 = protect (allocate s1).1 in
      let (call, s3) = allocate s2 in traced (eval call) (protect s3)
