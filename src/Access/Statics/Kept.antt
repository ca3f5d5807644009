-- ===== src/Access/Statics/Kept.antt =====
-- What the statics of python.cpp give to the calls that follow the first.
use pyreticulate.Base.{◌≡◌, refl, false, arith, ℕ, List, [], ◌∷◌, none, some, map}
use pyreticulate.Result.{ok, err, stop, python_exception}
use pyreticulate.PyObject.{Head}
use pyreticulate.Interp.{Interp, clear, take_ref}
use pyreticulate.Access.{Answer, returned, raised, throw_error}
use pyreticulate.Access.Statics.{Statics, use_static, static_module, static_calls, get_np_nditer}

static_calls-some :
    (answers : List (Answer Head)) (h : Head) (s : Interp)
    → static_calls answers (some (some h)) s ≡ (map (λ a. ok h) answers, some (some h), s)
unfolding static_calls static_module use_static
static_calls-some [] h s = refl
static_calls-some (a ∷ answers) h s = ground (arith, static_calls-some answers h s)

static_calls-null :
    (answers : List (Answer Head)) (s : Interp)
    → s.error ≡ none
    → s.interrupted ≡ false
    → static_calls answers (some none) s
      ≡ (map (λ a. err (stop "Unknown Python error.")) answers, some none, s)
unfolding static_calls static_module use_static throw_error
static_calls-null [] s e quiet = refl
static_calls-null (a ∷ answers) s e quiet =
    ground (arith, e, quiet, static_calls-null answers s e quiet)

-- When the first import succeeds, every call gives its module, whatever an import would give later, and
-- one reference is taken once and for all.
pub static_calls-returned :
    (h : Head) (answers : List (Answer Head)) (s : Interp)
    → static_calls (returned h ∷ answers) none s
      ≡ (ok h ∷ map (λ a. ok h) answers, some (some h), take_ref s)
unfolding static_calls static_module use_static
static_calls-returned h answers s = ground (arith, static_calls-some answers h (take_ref s))

-- When the first import raises an exception, its call throws it, and each call that follows throws
-- "Unknown Python error.": the import is not tried again, also where it would succeed, and no exception
-- is left pending. No interrupt has been noted, and the fetching of the exception leaves none pending.
pub static_calls-raised :
    (e : ℕ) (answers : List (Answer Head)) (s : Interp)
    → s.interrupted ≡ false
    → s.left_by e ≡ none
    → static_calls (raised e ∷ answers) none s ≡ (
      err python_exception ∷ map (λ a. err (stop "Unknown Python error.")) answers,
      some none,
      clear s,
    )
unfolding static_calls static_module use_static throw_error
static_calls-raised e answers s quiet none_left =
    ground (arith, quiet, none_left, static_calls-null answers (clear s) refl quiet)

-- The first import of numpy fails: nditer's static stays as it was, but the next call throws "Unknown
-- Python error." all the same, since numpy's static is NULL. No interrupt has been noted, and the exception leaves none pending.
pub get_np_nditer-import :
    (e : ℕ) (import attr : Answer Head) (s : Interp)
    → s.interrupted ≡ false
    → s.left_by e ≡ none
    → let first = get_np_nditer (raised e) attr (record { numpy = none; nditer = none }) s in
      (first.0 ≡ err python_exception)
      × (first.1.nditer ≡ none)
      × ((get_np_nditer import attr first.1 first.2).0 ≡ err (stop "Unknown Python error."))
unfolding get_np_nditer static_module use_static throw_error
get_np_nditer-import e import attr s quiet fresh = ground arith

-- numpy is there, and its nditer is missing at the first call: the next call throws "Unknown Python
-- error.", also if the attribute is there by then.
pub get_np_nditer-attr :
    (e : ℕ) (h : Head) (import attr : Answer Head) (s : Interp)
    → s.interrupted ≡ false
    → s.left_by e ≡ none
    → let t : Statics = record { numpy = some (some h); nditer = none } in
      let first = get_np_nditer import (raised e) t s in
      (first.0 ≡ err python_exception)
      × (first.1.nditer ≡ some none)
      × ((get_np_nditer import attr first.1 first.2).0 ≡ err (stop "Unknown Python error."))
unfolding get_np_nditer static_module use_static throw_error
get_np_nditer-attr e h import attr s quiet fresh = ground arith
