-- ===== src/Fetch/Thrown.antt =====
-- `throw_error` of Access as what `py_fetch_error` (python.cpp) promises to the code that throws.
use pyreticulate.Base.{ℕ, not, ◌&&◌, Bool, none, some, is_some, Option, if◌then◌else◌}
use pyreticulate.Interp.{Interp}
use pyreticulate.Fetch.{attribute_error, Exception}
use pyreticulate.Fetch.Attached.{nearest, or_else}
use pyreticulate.Fetch.Stale.{missed}

-- The search of the contexts leaves its own exception pending.
abbrev pub is_stale : Exception → Bool
is_stale x =
    not (is_some x.call)
    && (is_some (nearest x.contexts).0
        && (missed x.contexts && is_some (or_else (nearest x.contexts).1 x.trace)))

-- What `x` leaves pending once it has been fetched.
abbrev pub left_behind : Exception → Option ℕ
left_behind x = if is_stale x then some attribute_error else none
