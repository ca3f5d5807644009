-- ===== src/Message.antt =====
-- `conditionMessage_from_py_exception` of python.cpp: the text of an R error for a Python exception,
-- and its truncation to R's limit on messages. A text is its bytes. A position is kept as `none`
-- where the code has npos, which an `int` turns into -1; sizes are below 2^31.
pub mod Truncation
use pyreticulate.Base.{
  ℕ, zero, suc, ◌+◌, ◌-◌, Bool, true, false, List, [], ◌∷◌, ◌++◌, Option, none, some, if◌then◌else◌,
  ltb, length, take, drop,
}
use pyreticulate.Bytes.{Bytes, codes, find}

abbrev pub newline : ℕ
newline = b'\n'

abbrev pub truncation_mark : Bytes
truncation_mark = codes "<...truncated...>"

-- error.find("\n", pos)
unfoldable pub find_from : ℕ → Bytes → Option ℕ
unfolding find
find_from pos s = elim (find newline (drop pos s)) [ none ↦ none | some i ↦ some (pos + i) ]

-- `second_line_start_pos + 1`: the size of the first two lines, 0 if they do not both end.
unfoldable pub head_size : Bytes → ℕ
unfolding find_from
head_size error =
    let start : ℕ = elim (find_from 0 error) [ none ↦ 0 | some first ↦ first + 1 ] in
    elim (find_from start error) [ none ↦ 0 | some second ↦ second + 1 ]

-- error.substr(pos), which throws std::out_of_range behind the end
unfoldable pub substr_from : ℕ → Bytes → Option Bytes
substr_from pos s = if ltb (length s) pos then none else some (drop pos s)

-- `none` is the exception of `substr`.
unfoldable pub truncate : ℕ → Bytes → Option Bytes
unfolding head_size substr_from
truncate max_msg_len error =
    if ltb max_msg_len (length error)
    then (let over = length error - max_msg_len in
        let head = take (head_size error) error in
        elim (substr_from (over + length head + length truncation_mark + 20) error) [
          | none ↦ none
          | some tail ↦ some (head ++ (truncation_mark ++ tail))
        ])
    else some error

-- What Python answers: the steps of `traceback.format_exception_only`, by the first that fails.
pub data Traceback : Type 0 where
  no_module no_function no_result : Traceback
  formatted : List Bytes → Traceback

abbrev pub concat : List Bytes → Bytes
concat [] = []
concat (s ∷ ss) = s ++ concat ss

unfoldable pub condition_message : Traceback → Bytes → ℕ → Option Bytes
unfolding truncate
condition_message no_module hint max_msg_len =
    some (codes "<unknown python exception, traceback module not found>")
condition_message no_function hint max_msg_len =
    some (codes "<unknown python exception, traceback format fn not found>")
condition_message no_result hint max_msg_len =
    some (codes "<unknown python exception, traceback format fn returned NULL>")
condition_message (formatted lines) hint max_msg_len = truncate max_msg_len (concat lines ++ hint)
