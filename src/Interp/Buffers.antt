-- ===== src/Interp/Buffers.antt =====
-- `flush_std_buffers` of libpython.cpp. A stream of `sys` is absent, or its `flush` raises an
-- exception, or it works.
use pyreticulate.Base.{ℕ, Bool, true, false}
use pyreticulate.Base.Int.{ℤ, pos, negsuc}
use pyreticulate.Interp.{Interp, fetch, restore, raise, take_ref, dec_ref}

pub data Stream : Type 0 where
  absent : Stream
  failing : ℕ → Stream
  working : Stream

-- The part for one stream: `status` and the interpreter behind it.
unfoldable pub flush_stream : Stream → ℤ × Interp → ℤ × Interp
flush_stream absent (status, s) = (negsuc 0, s)
flush_stream (failing e) (status, s) = (negsuc 0, raise e s)
flush_stream working (status, s) = (status, dec_ref (take_ref s))

unfoldable pub flush_std_buffers : Stream → Stream → Interp → ℤ × Interp
unfolding flush_stream
flush_std_buffers sys_stdout sys_stderr s =
    let (error, s1) = fetch s in
    let (status, s2) = flush_stream sys_stderr (flush_stream sys_stdout (pos 0, s1)) in
    (status, restore error s2)

-- The flush of a stream succeeds.
abbrev pub works : Stream → Bool
works working = true
works _ = false
