-- ===== src/Access/Statics.antt =====
-- The objects that functions of python.cpp look up once and keep in a `const static` of theirs: the
-- modules of `STATIC_MODULE` and numpy's nditer. A static is initialised by the first call that gets as
-- far as its end, also if it is then NULL; an exception on the way leaves it as it was. A variable is
-- `none` until it is initialised.
pub mod Kept
use pyreticulate.Base.{Bool, true, false, List, [], ◌∷◌, Option, none, some}
use pyreticulate.Result.{Result, ok, err}
use pyreticulate.PyObject.{Head}
use pyreticulate.Interp.{Interp}
use pyreticulate.Access.{Answer, new_ref, throw_error}

abbrev pub Static : Type 0
Static = Option (Option Head)

-- The static once it is initialised, and the check of it.
unfoldable pub use_static : Option Head → Interp → Result Head × Interp
unfolding throw_error
use_static none s = throw_error s
use_static (some h) s = (ok h, s)

-- `numpy` and `pandas_arrays`.
unfoldable pub static_module : Answer Head → Static → Interp → Result Head × Static × Interp
unfolding use_static
static_module answer (some kept) s = let (r, s1) = use_static kept s in (r, some kept, s1)
static_module answer none s =
    let (kept, s0) = new_ref answer s in let (r, s1) = use_static kept s0 in (r, some kept, s1)

pub record Statics : Type 0 where
  pub numpy : Static
  pub nditer : Static

-- `get_np_nditer`: the attribute is looked up of numpy.
unfoldable pub get_np_nditer :
    Answer Head → Answer Head → Statics → Interp → Result Head × Statics × Interp
unfolding use_static static_module
get_np_nditer import attr t s = elim t.nditer [
  | some kept ↦ let (r, s1) = use_static kept s in (r, t, s1)
  | none ↦
      let (module_, numpy', s1) = static_module import t.numpy s in
      let t1 = record t { numpy = numpy' } in
      elim module_ [
        | err e ↦ (err e, t1, s1)
        | ok h ↦
            let (kept, s2) = new_ref attr s1 in
            let (r, s3) = use_static kept s2 in (r, record t1 { nditer = some kept }, s3)
      ]
]

-- Calls of a function with a static, by what each import would give.
unfoldable pub static_calls :
    List (Answer Head) → Static → Interp → List (Result Head) × Static × Interp
unfolding static_module
static_calls [] kept s = ([], kept, s)
static_calls (answer ∷ answers) kept s =
    let (r, kept1, s1) = static_module answer kept s in
    let (rs, kept2, s2) = static_calls answers kept1 s1 in (r ∷ rs, kept2, s2)
