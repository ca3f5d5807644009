-- ===== src/Interp/Laws.antt =====
-- What `flush_std_buffers` and `import_numpy_api` (libpython.cpp) leave of the interpreter.
use pyreticulate.Base.{
  ◌+◌, ◌≤◌, ◌≡◌, ◌↔◌, true, false, ◌&&◌, Option, none, if◌then◌else◌, arith, is_some, not, ◌||◌,
}
use pyreticulate.Base.Int.{pos, negsuc}
use pyreticulate.Interp.{Interp}
use pyreticulate.Interp.Buffers.{Stream, works, flush_std_buffers}
use pyreticulate.Interp.NumpyApi.{
  Numpy, NumpyError, npy_version, npy_1_6_api_version, import_numpy_api,
}

-- The code gives back every reference that it takes.
abbrev pub IsBalanced : Interp → Interp → Type 0
IsBalanced s t = t.taken + s.released ≡ t.released + s.taken

-- The flushing of the buffers answers 0 exactly if both streams are there and flush, and -1
-- otherwise; on every path the error indicator is what it was before, and the references balance.
pub flush_std_buffers_lem :
    (sys_stdout sys_stderr : Stream) (s : Interp)
    → let r = flush_std_buffers sys_stdout sys_stderr s in
      (r.0 ≡ (if works sys_stdout && works sys_stderr then pos 0 else negsuc 0))
      × (r.1.error ≡ s.error)
      × IsBalanced s r.1
unfolding flush_std_buffers
flush_std_buffers_lem sys_stdout sys_stderr s = ground arith

-- The flushing leaves alone what the fetching of an exception would leave pending.
pub flush_std_buffers-left_by :
    (sys_stdout sys_stderr : Stream) (s : Interp)
    → (flush_std_buffers sys_stdout sys_stderr s).1.left_by ≡ s.left_by
unfolding flush_std_buffers
flush_std_buffers-left_by sys_stdout sys_stderr s = ground arith

-- numpy's API is imported exactly if the module, its _ARRAY_API and the pointer in it are there, the
-- binary version is the expected one and the feature version is not below 1.6's. Then the message is the
-- one from before, and otherwise there is one. The references balance on every path.
pub import_numpy_api_lem :
    (n : Numpy) (message : Option NumpyError) (s : Interp)
    → let r = import_numpy_api n message s in
      ((r.imported ≡ true) ↔ (
        (n.import_error ≡ none)
        × (n.api_error ≡ none)
        × (n.pointer_error ≡ none)
        × (n.c_version ≡ npy_version)
        × (npy_1_6_api_version ≤ n.feature)))
      × (r.imported ≡ true → r.message ≡ message)
      × (r.imported ≡ false → is_some r.message ≡ true)
      × IsBalanced s r.interp
unfolding import_numpy_api
import_numpy_api_lem n message s =
    ((λ h. ground arith, λ h. ground arith), ground arith, ground arith, ground arith)

-- From a clear error indicator, `import_numpy_api` leaves an exception pending exactly if the module
-- was imported and _ARRAY_API was missing or held no pointer.
pub import_numpy_api-error :
    (n : Numpy) (message : Option NumpyError) (s : Interp)
    → s.error ≡ none
    → is_some (import_numpy_api n message s).interp.error
      ≡ (not (is_some n.import_error) && (is_some n.api_error || is_some n.pointer_error))
unfolding import_numpy_api
import_numpy_api-error n message s h = ground arith
