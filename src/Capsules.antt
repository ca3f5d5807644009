-- ===== src/Capsules.antt =====
-- Capsules (python.cpp): R objects that Python holds. `Rcpp_precious_preserve` gives a cell that keeps
-- the object from R's collector until `Rcpp_precious_remove`; a capsule holds the cell, and its
-- destructor removes it, on the main thread or through CPython's queue of pending calls. A cell is a
-- number, and 0 is R_NilValue, which is not preserved. The precious list, the capsules, the queue
-- and the cells whose removal was given up are lists of cells.
pub mod Protected
pub mod Bag
pub mod Read
use pyreticulate.Result.{Result, ok, err, stop}
use pyreticulate.Base.{
  ℕ, zero, suc, ◌+◌, ◌==◌, ◌≡◌, ◌<◌, Bool, true, false, List, [], ◌∷◌, ◌++◌, Option, none, some,
  if◌then◌else◌, flag,
}
use pyreticulate.Result.{Result, ok, err, python_exception}
use pyreticulate.Pending.{
  Ending, scheduled, gave_up, out_of_fuel, Scheduling, Removal, removed_now, later,
  remove_main_thread,
}

pub record Store : Type 0 where
  pub objects : ℕ → ℕ  -- TAG of a cell
  pub next : ℕ  -- cells from here on are new
  pub precious : List ℕ
  pub live : List ℕ  -- of the capsules that Python holds
  pub queue : List ℕ  -- free_sexp calls that CPython has accepted
  pub lost : List ℕ
  pub errors : ℕ  -- printed by the destructor

-- How often a cell stands in a list, and the list without its first occurrence.
abbrev pub count : ℕ → List ℕ → ℕ
count c [] = 0
count c (d ∷ ds) = flag (c == d) + count c ds

abbrev pub erase : ℕ → List ℕ → List ℕ
erase c [] = []
erase c (d ∷ ds) = let rest = d ∷ erase c ds in if c == d then ds else rest

-- Rcpp_precious_remove, which does nothing with R_NilValue.
abbrev pub precious_remove : ℕ → Store → Store
precious_remove c s = record s { precious = erase c s.precious }

-- `py_capsule_new`; the object 0 is R_NilValue.
unfoldable pub py_capsule_new : ℕ → Store → Store
py_capsule_new object s = if object == 0 then record s { live = 0 ∷ s.live } else record s {
  objects = λ c. if c == s.next then object else s.objects c;
  next = s.next + 1;
  precious = s.next ∷ s.precious;
  live = s.next ∷ s.live;
}

-- `py_capsule_read` of a capsule with this cell: the object, if the cell has not been removed. The
-- TAG of R_NilValue is R_NilValue.
unfoldable pub py_capsule_read : ℕ → Store → Option ℕ
py_capsule_read c s =
    if c == 0 then some 0 else if count c s.precious == 0 then none else some (s.objects c)

-- What becomes of the cell.
unfoldable pub dispose : Removal → ℕ → Store → Store
dispose removed_now c s = precious_remove c s
dispose (later l) c s = elim l.ending [
  | scheduled n ↦ record s { queue = s.queue ++ c ∷ []; errors = s.errors + l.errors }
  | gave_up ↦ record s { lost = c ∷ s.lost; errors = s.errors + l.errors }
  | out_of_fuel ↦ record s { lost = c ∷ s.lost; errors = s.errors + l.errors }
]

-- `py_capsule_free`, which Python calls when the last reference to a capsule goes.
unfoldable pub py_capsule_free : (ℕ → Bool) → Bool → ℕ → Store → Store
unfolding dispose remove_main_thread
py_capsule_free accepts is_main_thread c s =
    dispose (remove_main_thread accepts is_main_thread) c (record s { live = erase c s.live })

-- `free_sexp`, which the main thread calls from the queue.
unfoldable pub free_sexp : ℕ → Store → Store
free_sexp c s = precious_remove c s

-- `r_extptr_capsule` of an external pointer, which is no R_NilValue: `null` is whether its address is
-- NULL. The capsule's context is the cell.
unfoldable pub r_extptr_capsule : Bool → ℕ → Store → Result (Unit {0}) × Store
unfolding py_capsule_new
r_extptr_capsule null object s =
    if null then (err (stop "Invalid pointer"), s) else (ok tt, py_capsule_new object s)

-- `free_r_extptr_capsule`.
unfoldable pub free_r_extptr_capsule : (ℕ → Bool) → Bool → ℕ → Store → Store
unfolding dispose remove_main_thread
free_r_extptr_capsule accepts is_main_thread c s =
    dispose (remove_main_thread accepts is_main_thread) c (record s { live = erase c s.live })

pub data Step : Store → Store → Type 0 where
  capsule : (s : Store) (object : ℕ) → Step s (py_capsule_new object s)
  free :
      (s : Store) (accepts : ℕ → Bool) (is_main_thread : Bool) (c n : ℕ)
      → count c s.live ≡ suc n
      → Step s (py_capsule_free accepts is_main_thread c s)
  external : (s : Store) (null : Bool) (object : ℕ) → Step s (r_extptr_capsule null object s).1
  free_external :
      (s : Store) (accepts : ℕ → Bool) (is_main_thread : Bool) (c n : ℕ)
      → count c s.live ≡ suc n
      → Step s (free_r_extptr_capsule accepts is_main_thread c s)
  pending :
      (s : Store) (c : ℕ) (queue : List ℕ)
      → s.queue ≡ c ∷ queue
      → Step s (free_sexp c (record s { queue = queue }))

pub data Reach (s : Store) : Store → Type 0 where
  here : Reach s s
  next_step : {t u : Store} → Reach s t → Step t u → Reach s u

abbrev pub empty_store : Store
empty_store = record {
  objects = λ c. 0;
  next = 1;
  precious = [];
  live = [];
  queue = [];
  lost = [];
  errors = 0;
}
