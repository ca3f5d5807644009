-- ===== src/Entry.antt =====
-- The guard of the exported functions (reticulate_types.h): `GILScope`, BEGIN_RCPP and END_RCPP, and
-- the finalizer of a `PyObjectRef`. CPython's lock is counted by its nesting: PyGILState_Ensure and
-- PyGILState_Release of one thread. A release without an acquisition is fatal to CPython. R objects
-- are numbers.
pub mod Nesting
pub mod Exported
use pyreticulate.Base.{
  ℕ, zero, suc, ◌+◌, ◌-◌, ◌==◌, Bool, true, false, Option, none, some, if◌then◌else◌,
}

pub record Gil : Type 0 where
  pub initialized : Bool  -- s_is_python_initialized
  pub depth : ℕ
  pub fatal : Bool
  pub released_objects : ℕ  -- Py_DecRef by finalizers

unfoldable pub ensure : Gil → Gil
ensure s = record s { depth = s.depth + 1 }

unfoldable pub release : Gil → Gil
release s = if s.depth == 0 then record s { fatal = true } else record s { depth = s.depth - 1 }

-- The constructors, which give `acquired`, and the destructor.
unfoldable pub enter : Gil → Bool × Gil
unfolding ensure
enter s = if s.initialized then (true, ensure s) else (false, s)

unfoldable pub enter_forced : Bool → Gil → Bool × Gil
unfolding ensure
enter_forced force s = if force then (true, ensure s) else (false, s)

unfoldable pub leave : Bool → Gil → Gil
unfolding release
leave acquired s = if acquired then release s else s

-- What can leave the body of an exported function, in the order of the handlers.
pub data Thrown : Type 0 where
  python_exception : ℕ → Thrown  -- with its condition
  interrupted_exception : Thrown
  longjump_exception : ℕ → Thrown  -- with its token
  rcpp_exception : ℕ → Thrown
  std_exception : ℕ → Thrown
  unknown : Thrown

pub data Outcome : Type 0 where
  returns : ℕ → Outcome
  throws : Thrown → Outcome
  jumps : Outcome  -- R's long jump, as out of the plain Rf_eval of `call_r_function`

-- The R condition that a handler makes of an exception.
pub data Condition : Type 0 where
  own : ℕ → Condition
  from_rcpp : ℕ → Condition
  from_std : ℕ → Condition
  try_error : Condition

-- rcpp_output_type, and rcpp_output_condition of the types 2 and 3.
pub record Output : Type 0 where
  pub type : ℕ
  pub condition : Condition
  pub token : ℕ

abbrev pub no_output : Output
no_output = record { type = 0; condition = try_error; token = 0 }

-- The handlers.
unfoldable pub handle : Thrown → Output
handle (python_exception c) = record no_output { type = 2; condition = own c }
handle interrupted_exception = record no_output { type = 1 }
handle (longjump_exception t) = record no_output { type = 3; token = t }
handle (rcpp_exception e) = record no_output { type = 2; condition = from_rcpp e }
handle (std_exception e) = record no_output { type = 2; condition = from_std e }
handle unknown = record no_output { type = 2; condition = try_error }

-- How the entry point is left: with a value, by Rf_onintr, by R's `stop`, by a resumed jump, or by a
-- jump that runs no destructor.
pub data Exit : Type 0 where
  value : ℕ → Exit
  on_interrupt : Exit
  stopped : Condition → Exit
  resumed : ℕ → Exit
  null_value : Exit
  jumped_past : Exit

-- The tests behind the handlers.
unfoldable pub finish : Output → Exit
finish o =
    if o.type == 1
    then on_interrupt
    else if o.type == 2
    then stopped o.condition
    else if o.type == 3
    then resumed o.token
    else null_value

-- An exported function: the scope is left ahead of the handlers.
unfoldable pub entry_point : (Gil → Outcome × Gil) → Gil → Exit × Gil
unfolding enter leave handle finish
entry_point body s =
    let (acquired, s1) = enter s in
    let (outcome, s2) = body s1 in
    let s3 = leave acquired s2 in
    elim outcome [
      | returns v ↦ (value v, s3)
      | throws e ↦ (finish (handle e), s3)
      | jumps ↦ (jumped_past, s2)
    ]

-- `python_object_finalize`; `none` is a null address.
unfoldable pub python_object_finalize : Option ℕ → Gil → Gil
unfolding enter leave
python_object_finalize address s =
    let (acquired, s1) = enter s in
    let s2 : Gil = elim address [
      | none ↦ s1
      | some a ↦ record s1 { released_objects = s1.released_objects + 1 }
    ] in
    leave acquired s2
