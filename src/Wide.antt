-- ===== src/Wide.antt =====
-- The conversion of texts to and from wide strings (`to_wstring` and `to_string` of python.cpp). The C
-- library's locale is a record: what a text reads as, `none` if it is not valid, and the bytes of a
-- wide character, `none` if it has none. A size of (size_t) -1 makes std::wstring and std::string throw
-- std::length_error, whose texts are the C++ library's. `maxnchar` is an `int`: where four times the size
-- of the string is none that is not negative, malloc and wcstombs are asked for a buffer of the size_t
-- that it becomes, and what follows is theirs.
pub mod Texts
use pyreticulate.Base.{
  ℕ, ◌+◌, ◌-◌, ◌*◌, leb, Bool, true, false, List, [], ◌∷◌, ◌++◌, Option, none, some, if◌then◌else◌,
  length, take, String, ltb, ◌%◌, ◌^◌,
}
use pyreticulate.Bytes.{Bytes}
use pyreticulate.Readline.{c_string}
use pyreticulate.Result.{Result, ok, err, stop}

abbrev pub WideString : Type 0
WideString = List ℕ

pub record Locale : Type 0 where
  pub decode : Bytes → Option WideString
  pub encode_char : ℕ → Option Bytes
  pub resize_error : String
  pub create_error : String
  pub no_buffer : Result Bytes × ℕ

-- mbstowcs: at most `n` wide characters, of the bytes ahead of the first NUL.
unfoldable pub mbstowcs : Locale → Bytes → ℕ → Option WideString
mbstowcs l str n = elim (l.decode (c_string str)) [ none ↦ none | some ws ↦ some (take n ws) ]

-- wcstombs: it stops at the first NUL, at a character that has no bytes, and ahead of one whose bytes
-- do not fit any more into `n`.
unfoldable pub wcstombs : Locale → WideString → ℕ → Option Bytes
wcstombs l [] n = some []
wcstombs l (c ∷ ws) n = elim (l.encode_char c) [
  | none ↦ none
  | some bytes ↦
      let rest = wcstombs l ws (n - length bytes) in
      if leb (length bytes) n
      then elim rest [ none ↦ none | some more ↦ some (bytes ++ more) ]
      else some []
]

unfoldable pub to_wstring : Locale → Bytes → Result WideString
unfolding mbstowcs
to_wstring l str = elim (mbstowcs l str (length str)) [
  | none ↦ err (stop l.resize_error)
  | some ws ↦ ok ws
]

-- The result, and how many buffers are not freed.
unfoldable pub to_string : Locale → WideString → Result Bytes × ℕ
unfolding wcstombs
to_string l ws =
    let maxnchar = length ws * 4 % 2 ^ 32 in
    if ltb maxnchar (2 ^ 31)
    then elim (wcstombs l (c_string ws) maxnchar) [
      | none ↦ (err (stop l.create_error), 1)
      | some bytes ↦ (ok bytes, 0)
    ]
    else l.no_buffer
