-- ===== src/Reference.antt =====
-- `PyObjectRef` (reticulate_types.h): an environment of R that holds an external pointer to a Python
-- object, and the flag `convert`. A pointer that was saved with a session is NULL when it is loaded.
use pyreticulate.Base.{ℕ, ◌+◌, ◌≡◌, arith, Bool, true, not, ◌==◌, Option, none, some, if◌then◌else◌}
use pyreticulate.Result.{Result, ok, err, stop, is_ok}

-- The bindings "pyobj", to an address or to NULL (0), and "convert", where they are there; and the
-- addresses that finalizers will release, by their number.
pub record Environment : Type 0 where
  pub pyobj : Option ℕ
  pub convert : Option Bool
  pub finalizers : ℕ

abbrev pub empty_env : Environment
empty_env = record { pyobj = none; convert = none; finalizers = 0 }

unfoldable pub set : ℕ → Environment → Environment
set object e = record e { pyobj = some object; finalizers = e.finalizers + 1 }

unfoldable pub new_object_ref : ℕ → Bool → Environment
unfolding set
new_object_ref object convert = record (set object empty_env) { convert = some convert }

unfoldable pub get : Environment → Result ℕ
get e =
    let invalid =
      stop "Unable to access object (object is from previous session and is now invalid)" in
    elim e.pyobj [
      | none ↦ err invalid
      | some address ↦ if address == 0 then err invalid else ok address
    ]

unfoldable pub is_null_xptr : Environment → Bool
is_null_xptr e = elim e.pyobj [ none ↦ true | some address ↦ address == 0 ]

unfoldable pub get_convert : Environment → Bool
get_convert e = elim e.convert [ none ↦ true | some b ↦ b ]

-- `get` throws exactly if `is_null_xptr` holds; behind the constructor, and behind each later `set`, it
-- gives the object that was set last, unless that is NULL; a `set` leaves `convert` as it was, which is
-- what the constructor was given.
pub get-set :
    (object : ℕ) (convert : Bool) (e : Environment)
    → (is_ok (get e) ≡ not (is_null_xptr e))
      × (get (set object e) ≡ (if is_null_xptr (set object e) then get empty_env else ok object))
      × (get (new_object_ref object convert) ≡ get (set object e))
      × (get_convert (set object e) ≡ get_convert e)
      × (get_convert (new_object_ref object convert) ≡ convert)
unfolding get is_null_xptr get_convert new_object_ref set
get-set object convert e = ground arith
