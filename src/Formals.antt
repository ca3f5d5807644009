-- ===== src/Formals.antt =====
-- The formals of an R function for a Python callable (python.cpp): the stretchy list of `NewList`
-- and `GrowList`, on a heap of R's cons cells, and the loop of `py_get_formals` over the parameters
-- of an `inspect.Signature`. The address 0 is R_NilValue. A formal is a name and its default, `none`
-- for R_MissingArg. The address of a new cell is an argument.
pub mod Grow
pub mod Dots
pub mod Build
pub mod Statics
use text.Mathlib.Text.{◌==◌ as str_eq}
use pyreticulate.Base.{
  ℕ, ◌==◌, ◌++◌, not, ◌&&◌, ◌||◌, Bool, true, false, List, [], ◌∷◌, Option, none, some, String,
  if◌then◌else◌,
}
use pyreticulate.Result.{Result, ok, err, python_exception, ◌>>=◌}
use pyreticulate.Sexp.{Sexp}
use pyreticulate.PyObject.{PyObject, Globals}
use pyreticulate.ToR.{py_to_r}

-- The CAR of a cell: another cell, as in the head of a stretchy list, or a value.
pub data Car : Type 0 where
  cell : ℕ → Car
  value : Option Sexp → Car

pub record Cons : Type 0 where
  pub car : Car
  pub cdr : ℕ
  pub tag : String

abbrev pub Heap : Type 0
Heap = ℕ → Cons

unfoldable pub write : Heap → ℕ → Cons → Heap
write h p c a = if a == p then c else h a

-- The cell that a CAR points at.
abbrev pub target : Car → ℕ
target (cell p) = p
target (value v) = 0

-- A head whose CAR is itself.
unfoldable pub new_list : ℕ → Heap → Heap
new_list fresh h = write h fresh (record { car = cell fresh; cdr = 0; tag = "" })

-- A new last cell: the old last cell's CDR is set, then the head's CAR.
unfoldable pub grow_list : ℕ → ℕ → String → Option Sexp → Heap → Heap
grow_list fresh args_list tag dflt h =
    let h1 = write h fresh (record { car = value dflt; cdr = 0; tag = tag }) in
    let last = target (h1 args_list).car in
    let h2 = write h1 last (record { car = (h1 last).car; cdr = fresh; tag = (h1 last).tag }) in
    write h2 args_list
      (record { car = cell fresh; cdr = (h2 args_list).cdr; tag = (h2 args_list).tag })

pub data Kind : Type 0 where
  positional var_positional keyword_only var_keyword : Kind

-- A parameter of the signature; `none` is an attribute or a name that cannot be read, and
-- `empty_default` is inspect.Parameter.empty.
pub data Default : Type 0 where
  empty_default : Default
  default_of : PyObject → Default

pub record Param : Type 0 where
  pub name : Option String
  pub kind : Option Kind
  pub dflt : Option Default

abbrev pub Formal : Type 0
Formal = String × Option Sexp

abbrev pub dots : Formal
dots = ("...", none)

abbrev pub is_variadic : Kind → Bool
is_variadic var_positional = true
is_variadic var_keyword = true
is_variadic _ = false

abbrev pub is_keyword_only : Kind → Bool
is_keyword_only keyword_only = true
is_keyword_only _ = false

abbrev pub read {ℓ} : {A : Type ℓ} → Option A → Result A
read none = err python_exception
read (some a) = ok a

-- The default of a formal.
unfoldable pub formal_default : Globals → Default → Result (Option Sexp)
formal_default g empty_default = ok none
formal_default g (default_of x) = py_to_r g x true >>= λ v. ok (some v)

-- What one parameter adds, and whether the dots are there behind it.
unfoldable pub add_param : Globals → Param → Bool → Result (List Formal × Bool)
unfolding formal_default
add_param g p has_dots = read p.kind >>= λ kind.
    let named = read p.dflt >>= λ d. formal_default g d >>= λ v. read p.name >>= λ n. ok (
      if not has_dots && is_keyword_only kind
      then (dots ∷ (n, v) ∷ [], true)
      else ((n, v) ∷ [], has_dots)) in
    if is_variadic kind then ok (if has_dots then [] else dots ∷ [], true) else named

-- The loop; `fails` says that the iterator ends with an exception.
unfoldable pub formals_loop : Globals → List Param → Bool → Bool → Result (List Formal)
unfolding add_param
formals_loop g [] has_dots fails = if fails then err python_exception else ok []
formals_loop g (p ∷ ps) has_dots fails =
    add_param g p has_dots >>= λ r. formals_loop g ps r.1 fails >>= λ fs. ok (r.0 ++ fs)

-- `py_get_formals`, from the call of `inspect.signature`: no signature gives the dots alone.
unfoldable pub py_get_formals : Globals → Option (List Param × Bool) → Result (List Formal)
unfolding formals_loop
py_get_formals g none = ok (dots ∷ [])
py_get_formals g (some (params, fails)) = formals_loop g params false fails
