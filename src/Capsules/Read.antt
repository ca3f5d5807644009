-- ===== src/Capsules/Read.antt =====
-- What is read from a capsule, and what is left when all capsules are gone (python.cpp).
use pyreticulate.Base.{
  true, false, ℕ, ◌≡◌, ◌≢◌, ◌<◌, refl, ◌∙◌, ap, Bool, List, [], ◌∷◌, some, arith, length, inl, inr,
}
use pyreticulate.Pending.{
  Ending, scheduled, gave_up, out_of_fuel, Scheduling, Removal, removed_now, later,
  remove_main_thread,
}
use pyreticulate.Pending.Finalizer.{Ended, at_first, never, remove_main_thread_lem}
use pyreticulate.Capsules.{
  Store, count, erase, py_capsule_new, py_capsule_read, dispose, py_capsule_free, free_sexp, Step,
  capsule, free, external, free_external, r_extptr_capsule, free_r_extptr_capsule, pending, Reach,
  here, next_step, empty_store,
}
use pyreticulate.Capsules.Protected.{Reach-IsAccounted}

dispose-objects :
    (r : Removal) (d : ℕ) (s : Store)
    → ((dispose r d s).objects ≡ s.objects) × ((dispose r d s).next ≡ s.next)
unfolding dispose
dispose-objects removed_now d s = (refl, refl)
dispose-objects (later l) d s = by_ending l.ending refl
  where
    by_ending :
        (e : Ending)
        → l.ending ≡ e
        → ((dispose (later l) d s).objects ≡ s.objects) × ((dispose (later l) d s).next ≡ s.next)
    by_ending (scheduled n) e = rw e (refl, refl)
    by_ending gave_up e = rw e (refl, refl)
    by_ending out_of_fuel e = rw e (refl, refl)

-- The object of an old cell stays.
Step-objects :
    {s t : Store} (c : ℕ) → Step s t → c < s.next → (t.objects c ≡ s.objects c) × (c < t.next)
unfolding py_capsule_new py_capsule_free free_sexp r_extptr_capsule free_r_extptr_capsule
Step-objects c (capsule s object) h = ground arith
Step-objects c (free s accepts is_main d n e) h =
    let (same, next) =
      dispose-objects (remove_main_thread accepts is_main) d (record s { live = erase d s.live }) in
    (ap (λ f. f c) same, omega (arith, next))
Step-objects c (external s true object) h = (refl, h)
Step-objects c (external s false object) h = ground arith
Step-objects c (free_external s accepts is_main d n e) h =
    let (same, next) =
      dispose-objects (remove_main_thread accepts is_main) d (record s { live = erase d s.live }) in
    (ap (λ f. f c) same, omega (arith, next))
Step-objects c (pending s d queue e) h = (refl, h)

Reach-objects :
    {s t : Store} (c : ℕ) → Reach s t → c < s.next → (t.objects c ≡ s.objects c) × (c < t.next)
Reach-objects c here h = (refl, h)
Reach-objects c (next_step r st) h =
    let (same, below) = Reach-objects c r h in
    let (same', below') = Step-objects c st below in (same' ∙ same, below')

Reach-trans : {s t u : Store} → Reach s t → Reach t u → Reach s u
Reach-trans r here = r
Reach-trans r (next_step q st) = next_step (Reach-trans r q) st

-- As long as Python holds a capsule, whatever else has happened to this and other capsules since it
-- was made, on whatever threads, reading it gives the R object that was put into it, if that is not R_NilValue.
pub py_capsule_read-py_capsule_new :
    (s u : Store) (object : ℕ)
    → Reach empty_store s
    → object ≢ 0
    → Reach (py_capsule_new object s) u
    → 0 < count s.next u.live
    → py_capsule_read s.next u ≡ some object
unfolding py_capsule_new py_capsule_read
py_capsule_read-py_capsule_new s u object r proper after live =
    let whole = Reach-trans (next_step r (capsule s object)) after in
    let v = Reach-IsAccounted s.next whole in
    let w = Reach-IsAccounted s.next r in
    let (same, below) = Reach-objects s.next after (ground arith) in
    ground (arith, v.accounted, w.positive, same)

dispose_later-errors :
    (accepts : ℕ → Bool) (l : Scheduling) (d : ℕ) (s : Store)
    → Ended accepts l
    → length s.lost ≡ s.errors
    → length (dispose (later l) d s).lost ≡ (dispose (later l) d s).errors
unfolding dispose
dispose_later-errors accepts l d s (at_first n ended small here_ before no_errors) e =
    rw ended (omega arith)
dispose_later-errors accepts l d s (never ended before one_error) e = rw ended (omega arith)

-- The destructor prints an error for each removal that it gives up.
dispose-errors :
    (accepts : ℕ → Bool) (is_main : Bool) (d : ℕ) (s : Store)
    → length s.lost ≡ s.errors
    → let t = dispose (remove_main_thread accepts is_main) d s in length t.lost ≡ t.errors
unfolding dispose
dispose-errors accepts is_main d s e = elim (remove_main_thread_lem accepts is_main) [
  | inl (p, now) ↦ rw now e
  | inr (p, (l, is_later, ended)) ↦ rw is_later (dispose_later-errors accepts l d s ended e)
]

Step-errors : {s t : Store} → Step s t → length s.lost ≡ s.errors → length t.lost ≡ t.errors
unfolding py_capsule_new py_capsule_free free_sexp r_extptr_capsule free_r_extptr_capsule
Step-errors (capsule s object) h = ground arith
Step-errors (free s accepts is_main d n e) h =
    dispose-errors accepts is_main d (record s { live = erase d s.live }) h
Step-errors (external s true object) h = h
Step-errors (external s false object) h = ground arith
Step-errors (free_external s accepts is_main d n e) h =
    dispose-errors accepts is_main d (record s { live = erase d s.live }) h
Step-errors (pending s d queue e) h = h

Reach-errors : {s : Store} → Reach empty_store s → length s.lost ≡ s.errors
Reach-errors here = refl
Reach-errors (next_step r st) = Step-errors st (Reach-errors r)

empty_of_length : (xs : List ℕ) → length xs ≡ 0 → xs ≡ []
empty_of_length [] h = refl
empty_of_length (x ∷ xs) h = absurd (omega arith)

-- When Python holds no capsule any more and CPython has run its queue, no R object is kept, unless the
-- destructor has printed an error.
pub Reach-no_leak :
    (s : Store) (c : ℕ)
    → Reach empty_store s
    → s.live ≡ []
    → s.queue ≡ []
    → s.errors ≡ 0
    → c ≢ 0
    → count c s.precious ≡ 0
Reach-no_leak s c r no_live no_queue no_errors proper =
    let v = Reach-IsAccounted c r in
    let total = v.accounted in
    let printed = Reach-errors r in ground (arith, total, proper, printed, empty_of_length s.lost)
