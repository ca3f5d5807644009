-- ===== src/Interp.antt =====
-- What the code can do to the interpreter outside the objects: the error indicator, by a number for
-- the pending exception, and the references that the code has been given and has given back; and what
-- `py_fetch_error` depends on: whether an interrupt has been noted for Python (s_pyInterruptsPending of
-- signals.cpp), and, for each exception, the one that its fetching leaves pending (the AttributeError of
-- the search of its contexts, or that of an attribute that cannot be set), if it leaves one.
pub mod Buffers
pub mod NumpyApi
pub mod Laws
pub mod Pointer
use pyreticulate.Base.{ℕ, ◌+◌, ◌≡◌, Bool, Option, none, some}

pub record Interp : Type 0 where
  pub error : Option ℕ
  pub taken : ℕ
  pub released : ℕ
  pub interrupted : Bool
  pub left_by : ℕ → Option ℕ

-- PyErr_Fetch, PyErr_Restore, PyErr_Clear, and a call that fails with an exception.
abbrev pub fetch : Interp → Option ℕ × Interp
fetch s = (s.error, record s { error = none })

abbrev pub restore : Option ℕ → Interp → Interp
restore e s = record s { error = e }

abbrev pub clear : Interp → Interp
clear s = record s { error = none }

abbrev pub raise : ℕ → Interp → Interp
raise e s = record s { error = some e }

-- A call that returns a new reference, and Py_DecRef.
abbrev pub take_ref : Interp → Interp
take_ref s = record s { taken = s.taken + 1 }

abbrev pub dec_ref : Interp → Interp
dec_ref s = record s { released = s.released + 1 }

-- `s` with the references that `t` counts.
abbrev pub counted : Interp → Interp → Interp
counted s t = record s { taken = t.taken; released = t.released }

-- Fetching an exception leaves none pending, whichever it is.
abbrev pub none_left : ℕ → Option ℕ
none_left e = none

-- No exception is pending, and fetching one leaves none.
abbrev pub IsClean : Interp → Type 0
IsClean s = (s.error ≡ none) × (s.left_by ≡ none_left)

-- From `s` to `t` the code has taken `n` references that it has not given back.
abbrev pub Holds : ℕ → Interp → Interp → Type 0
Holds n s t = t.taken + s.released ≡ t.released + s.taken + n
