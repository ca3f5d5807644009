-- ===== src/Capsules/Protected.antt =====
-- An R object is protected as long as Python holds a capsule with it (python.cpp).
use pyreticulate.Base.{
  if◌then◌else◌, ltb, ℕ, ◌+◌, ◌-◌, ◌==◌, ◌≡◌, ◌<◌, ◌≤◌, refl, ap, List, [], ◌∷◌, ◌++◌, flag, arith,
}
use pyreticulate.Pending.{
  Ending, scheduled, gave_up, out_of_fuel, Removal, removed_now, later, remove_main_thread,
}
use pyreticulate.Capsules.{
  Store, count, erase, py_capsule_new, dispose, py_capsule_free, free_sexp, Step, capsule, free,
  external, free_external, r_extptr_capsule, free_r_extptr_capsule, pending, Reach, here, next_step,
  empty_store,
}

-- Every cell but R_NilValue stands in the precious list as often as in the capsules, the queue and
-- the given up cells together; at most once; and only below the new cells. R_NilValue does not.
pub record IsAccounted (s : Store) (c : ℕ) : Type 0 where
  pub accounted :
      count c s.precious ≡ (if c == 0 then 0 else count c s.live + count c s.queue + count c s.lost)
  pub bounded : count c s.precious ≤ flag (ltb c s.next)
  pub positive : 0 < s.next

pub count-append : (c : ℕ) (xs ys : List ℕ) → count c (xs ++ ys) ≡ count c xs + count c ys
count-append c [] ys = omega arith
count-append c (x ∷ xs) ys = omega (arith, count-append c xs ys)

count-erase : (c d : ℕ) (xs : List ℕ) → count c (erase d xs) ≡ count c xs - flag (c == d)
count-erase c d [] = omega arith
count-erase c d (x ∷ xs) = ground (arith, count-erase c d xs)

capsule-IsAccounted :
    (object : ℕ) (s : Store) (c : ℕ) → IsAccounted s c → IsAccounted (py_capsule_new object s) c
unfolding py_capsule_new
capsule-IsAccounted object s c v = ground arith

dispose-IsAccounted :
    (r : Removal) (d : ℕ) (s : Store) (c : ℕ)
    → IsAccounted s c
    → 0 < count d s.live
    → IsAccounted (dispose r d (record s { live = erase d s.live })) c
unfolding dispose
dispose-IsAccounted removed_now d s c v h =
    ground (arith, count-erase c d s.live, count-erase c d s.precious)
dispose-IsAccounted (later l) d s c v h = by_ending l.ending refl
  where
    by_ending :
        (e : Ending)
        → l.ending ≡ e
        → IsAccounted (dispose (later l) d (record s { live = erase d s.live })) c
    by_ending (scheduled n) e =
        rw e (ground (arith, count-erase c d s.live, count-append c s.queue (d ∷ [])))
    by_ending gave_up e = rw e (ground (arith, count-erase c d s.live))
    by_ending out_of_fuel e = rw e (ground (arith, count-erase c d s.live))

pending-IsAccounted :
    (s : Store) (d : ℕ) (queue : List ℕ) (c : ℕ)
    → s.queue ≡ d ∷ queue
    → IsAccounted s c
    → IsAccounted (free_sexp d (record s { queue = queue })) c
unfolding free_sexp
pending-IsAccounted s d queue c e v = ground (arith, count-erase c d s.precious, ap (count c) e)

Step-IsAccounted : {s t : Store} (c : ℕ) → Step s t → IsAccounted s c → IsAccounted t c
unfolding py_capsule_free r_extptr_capsule free_r_extptr_capsule
Step-IsAccounted c (capsule s object) v = capsule-IsAccounted object s c v
Step-IsAccounted c (free s accepts is_main d n e) v =
    dispose-IsAccounted (remove_main_thread accepts is_main) d s c v (omega arith)
Step-IsAccounted c (external s null object) v = ground (arith, v, capsule-IsAccounted object s c v)
Step-IsAccounted c (free_external s accepts is_main d n e) v =
    dispose-IsAccounted (remove_main_thread accepts is_main) d s c v (omega arith)
Step-IsAccounted c (pending s d queue e) v = pending-IsAccounted s d queue c e v

-- Whatever capsules are made and freed, on whatever threads, and whenever CPython runs its queue: each
-- cell but R_NilValue is in the precious list as often as a capsule, a queued removal or a removal that was given up
-- has it, and never twice.
pub Reach-IsAccounted : {s : Store} (c : ℕ) → Reach empty_store s → IsAccounted s c
Reach-IsAccounted c here = ground arith
Reach-IsAccounted c (next_step r st) = Step-IsAccounted c st (Reach-IsAccounted c r)
