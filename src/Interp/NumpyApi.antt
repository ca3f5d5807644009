-- ===== src/Interp/NumpyApi.antt =====
-- `import_numpy_api` of libpython.cpp. What numpy and CPython answer is a record; the two messages
-- with a version keep the number.
use pyreticulate.Base.{ℕ, ◌==◌, not, Bool, true, false, Option, none, some, if◌then◌else◌, ltb}
use pyreticulate.Interp.{Interp, clear, raise, take_ref, dec_ref}

pub data NumpyError : Type 0 where
  import_failed : NumpyError  -- numpy.core.multiarray failed to import
  api_not_found : NumpyError  -- numpy.core.multiarray _ARRAY_API not found
  api_null : NumpyError  -- _ARRAY_API is NULL pointer
  binary_version : ℕ → NumpyError
  feature_version : ℕ → NumpyError

pub record Numpy : Type 0 where
  pub import_error : Option ℕ  -- the exception of a failed import
  pub api_error : Option ℕ  -- the exception of a missing _ARRAY_API
  pub pointer_error : Option ℕ  -- the exception of a capsule that gives no pointer
  pub c_version : ℕ
  pub feature : ℕ

abbrev pub npy_version : ℕ
npy_version = 0x01000009

abbrev pub npy_1_6_api_version : ℕ
npy_1_6_api_version = 6

pub record Import : Type 0 where
  pub imported : Bool
  pub message : Option NumpyError
  pub interp : Interp

abbrev failed : NumpyError → Interp → Import
failed e s = record { imported = false; message = some e; interp = s }

-- The tests of the versions, with the pointer in hand.
unfoldable pub check_versions : Numpy → Option NumpyError → Interp → Import
check_versions n message s =
    if not (npy_version == n.c_version)
    then failed (binary_version n.c_version) s
    else if ltb n.feature npy_1_6_api_version
    then failed (feature_version n.feature) s
    else record { imported = true; message = message; interp = s }

-- From the import of the module on; the references to the module and to the capsule are given back.
unfoldable pub import_numpy_api : Numpy → Option NumpyError → Interp → Import
unfolding check_versions
import_numpy_api n message s = elim n.import_error [
  | some e ↦ failed import_failed (clear (raise e s))
  | none ↦
      let s1 = take_ref s in
      elim n.api_error [
        | some e ↦ failed api_not_found (dec_ref (raise e s1))
        | none ↦
            let s2 = dec_ref (take_ref s1) in
            elim n.pointer_error [
              | some e ↦ failed api_null (dec_ref (raise e s2))
              | none ↦ check_versions n message (dec_ref s2)
            ]
      ]
]
