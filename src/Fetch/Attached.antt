-- ===== src/Fetch/Attached.antt =====
-- What `py_fetch_error` (python.cpp) attaches to an exception, and what it takes and gives back.
use pyreticulate.Base.{
  ℕ, ◌+◌, ◌≡◌, refl, not, ◌||◌, Bool, true, List, [], ◌∷◌, Option, none, some, is_some,
  if◌then◌else◌, arith,
}
use pyreticulate.Interp.{Interp, Holds}
use pyreticulate.Fetch.{Carried, Exception, pull, attach}

-- What the first of the contexts that carries a call or a trace carries.
abbrev pub nearest : List Carried → Carried
nearest [] = (none, none)
nearest ((c, t) ∷ contexts) =
    let rest = nearest contexts in if is_some c || is_some t then (c, t) else rest

abbrev pub or_else : Option ℕ → Option ℕ → Option ℕ
or_else none b = b
or_else (some v) b = some v

abbrev pub with_default : Option ℕ → ℕ → ℕ
with_default none b = b
with_default (some v) b = v

pub pull_carried :
    (contexts : List Carried) (x : Carried) (s : Interp)
    → ((pull true contexts (x, s)).0.0 ≡ or_else (nearest contexts).0 x.0)
      × ((pull true contexts (x, s)).0.1 ≡ or_else (nearest contexts).1 x.1)
unfolding pull
pull_carried [] x s = (refl, refl)
pull_carried ((none, none) ∷ contexts) x s = pull_carried contexts x _
pull_carried ((some c, none) ∷ contexts) x s = (refl, refl)
pull_carried ((none, some t) ∷ contexts) x s = (refl, refl)
pull_carried ((some c, some t) ∷ contexts) x s = (refl, refl)

pub pull-Holds :
    (writable : Bool) (contexts : List Carried) (x : Carried) (s : Interp)
    → Holds 0 s (pull writable contexts (x, s)).1
unfolding pull
pull-Holds writable [] x s = omega arith
pull-Holds writable ((none, none) ∷ contexts) x s = omega (
  arith,
  pull-Holds writable contexts x
      (record s { error = some 1; taken = s.taken + 1; released = s.released + 1 }),
)
pull-Holds writable ((some c, none) ∷ contexts) x s = ground arith
pull-Holds writable ((none, some t) ∷ contexts) x s = ground arith
pull-Holds writable ((some c, some t) ∷ contexts) x s = ground arith

-- What the exception carries in the end, in terms of what it and its contexts carried.
abbrev pub final_call : Exception → ℕ → ℕ
final_call x r_call = with_default (or_else x.call (nearest x.contexts).0) r_call

abbrev pub final_trace : Exception → ℕ → ℕ
final_trace x r_trace =
    let forwarded = or_else (nearest x.contexts).1 x.trace in
    with_default (if is_some x.call then x.trace else forwarded) r_trace

pub attach_carried :
    (r_trace r_call : ℕ) (x : Exception) (s : Interp)
    → x.writable ≡ true
    → let r = attach r_trace r_call x s in
      (r.0.0 ≡ some (final_call x r_call))
      × (r.0.1 ≡ some (final_trace x r_trace))
      × (r.1 ≡ not (is_some (or_else x.call (nearest x.contexts).0)))
unfolding attach
attach_carried r_trace r_call x s w =
    ground (arith, pull_carried x.contexts (x.call, x.trace) (record s { error = none }))

pub attach-Holds :
    (r_trace r_call : ℕ) (x : Exception) (s : Interp) → Holds 0 s (attach r_trace r_call x s).2
unfolding attach
attach-Holds r_trace r_call x s =
    ground (arith, pull-Holds x.writable x.contexts (x.call, x.trace) (record s { error = none }))
