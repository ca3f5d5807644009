-- ===== src/Access/Run.antt =====
-- The running of Python code (python.cpp): `py_run_string_impl`, `py_run_file_impl` and
-- `py_eval_impl`. What CPython answers to each call is data.
pub mod Kept
use pyreticulate.Base.{
  ℕ, ◌+◌, ◌≡◌, arith, Bool, true, false, none, some, if◌then◌else◌, not, ◌&&◌, flag, ◌⊎◌, inl, inr,
}
use pyreticulate.Base.Int.{int_eq, negsuc}
use pyreticulate.Result.{Result, ok, err, stop, ◌>>=◌}
use pyreticulate.Sexp.{Sexp, PyRef}
use pyreticulate.PyObject.{Head, PyObject, head, Globals}
use pyreticulate.ToR.{py_to_r}
use pyreticulate.Interp.{Interp, clear, take_ref, dec_ref, Holds}
use pyreticulate.Interp.Buffers.{Stream, flush_std_buffers}
use pyreticulate.Interp.Laws.{flush_std_buffers_lem}
use pyreticulate.Access.{Answer, returned, raised, new_ref, status, throw_error, own_ref}
use pyreticulate.Access.Ledger.{is_returned}

-- The references in a result.
abbrev pub held_by {ℓ} : {A : Type ℓ} → Result A → ℕ
held_by (ok r) = 1
held_by (err e) = 0

module _ (g : Globals) where
  -- `locals` and `dictionary` are the new dictionary of the locals, or `__main__`'s.
  unfoldable pub py_run_string_impl :
      Head → Answer (Unit {0}) → Bool → Bool → Interp → Result PyRef × Interp
  unfolding throw_error own_ref
  py_run_string_impl dictionary run true convert s =
      let (res, s1) = new_ref run (take_ref s) in
      let (thrown, s2) = throw_error s1 in
      let (ref, s3) = own_ref g dictionary convert (dec_ref s1) in
      elim res [ none ↦ (thrown, dec_ref s2) | some u ↦ (ref, s3) ]
  py_run_string_impl dictionary run false convert s =
      let (res, s1) = new_ref run s in
      let (ref, s3) = own_ref g dictionary convert (dec_ref (take_ref s1)) in
      elim res [ none ↦ throw_error s1 | some u ↦ (ref, s3) ]

  -- `py_eval_impl`: the value, converted or as a reference.
  unfoldable pub py_eval_impl :
      Answer (Unit {0}) → Answer PyObject → Bool → Interp → Result (Sexp ⊎ PyRef) × Interp
  unfolding throw_error own_ref
  py_eval_impl compile eval convert s =
      let (compiled, s1) = new_ref compile s in
      let (res, s2) = new_ref eval (take_ref s1) in
      let (thrown, s3) = throw_error s2 in
      let converted = λ (x : PyObject). py_to_r g x convert >>= λ v. ok (inl v) in
      elim compiled [
        | none ↦ throw_error s1
        | some code ↦ elim res [
          | none ↦ (thrown, dec_ref (dec_ref s3))
          | some x ↦ if convert then (converted x, dec_ref (dec_ref (dec_ref s2))) else (
            (own_ref g (head x) convert s2).0 >>= λ r. ok (inr r),
            dec_ref (dec_ref (own_ref g (head x) convert s2).1),
          )
        ]
      ]

-- The interpreter, the open files and the warnings.
pub record Running : Type 0 where
  pub interp : Interp
  pub opened : ℕ
  pub closed : ℕ
  pub warnings : ℕ

abbrev pub with_interp : Running → Interp → Running
with_interp r s = record r { interp = s }

-- What happens to the file: whether it opens, and the answers to the calls.
pub record Script : Type 0 where
  pub opens : Bool
  pub set_file : Answer (Unit {0})
  pub set_cached : Answer (Unit {0})
  pub run : Answer (Unit {0})
  pub delete_file : Answer (Unit {0})
  pub delete_cached : Answer (Unit {0})
  pub sys_stdout : Stream
  pub sys_stderr : Stream

-- PyDict_DelItemString, whose exception is cleared.
abbrev pub deleted : Answer (Unit {0}) → Interp → Interp
deleted (returned u) s = s
deleted (raised e) s = clear (record s { error = some e })

-- An exception that is thrown while the locals are held.
abbrev pub thrown_from : Interp → Running → Result PyRef × Running
thrown_from s r =
    ((throw_error {A = PyRef} s).0, with_interp r (dec_ref (throw_error {A = PyRef} s).1))

module _ (g : Globals) where
  -- From PyRun_FileEx on, which closes the file.
  unfoldable pub run_file : Head → Script → Bool → Running → Result PyRef × Running
  unfolding throw_error own_ref
  run_file locals script convert r =
      let (res, s1) = new_ref script.run r.interp in
      let r1 = record r { interp = s1; closed = r.closed + 1 } in
      let s2 = deleted script.delete_cached (deleted script.delete_file (dec_ref s1)) in
      let (status_, s3) = flush_std_buffers script.sys_stdout script.sys_stderr s2 in
      let (ref, s4) = own_ref g locals convert s3 in
      elim res [
        | none ↦ thrown_from s1 r1
        | some u ↦ (
          ref,
          record r1 { interp = s4; warnings = r.warnings + flag (int_eq status_ (negsuc 0)) },
        )
      ]

  -- The text of the file's name is a new reference, which is not given back.
  unfoldable pub py_run_file_impl : Head → Script → Bool → Running → Result PyRef × Running
  unfolding run_file
  py_run_file_impl locals script convert r =
      let r1 = record r { interp = take_ref (take_ref r.interp); opened = r.opened + 1 } in
      let (named, s1) = status script.set_file r1.interp in
      let (cached, s2) = status script.set_cached s1 in
      if not script.opens
      then (err (stop "Unable to open file '%s'"), r)
      else if not named
      then thrown_from s1 r1
      else if not cached
      then thrown_from s2 r1
      else run_file locals script convert (with_interp r1 s2)
