-- ===== src/Wide/Texts.antt =====
-- What the conversions of python.cpp between texts and wide strings keep of a text.
use pyreticulate.Base.{
  ◌<◌, ◌%◌, ◌^◌, ℕ, zero, suc, ◌-◌, ◌*◌, ◌≤◌, ◌≡◌, refl, ap, arith, ◌==◌, false, [], ◌∷◌, ◌++◌,
  none, some, length, take, length-append,
}
use pyreticulate.Bytes.{Bytes}
use pyreticulate.Readline.{c_string}
use pyreticulate.Result.{ok, err, stop}
use pyreticulate.Wide.{WideString, Locale, mbstowcs, wcstombs, to_wstring, to_string}

-- `bytes` is what `ws`, which holds no NUL, reads as in the locale: each character has from one to four
-- bytes.
pub data Encodes (l : Locale) : WideString → Bytes → Type 0 where
  nothing : Encodes l [] []
  char :
      {c : ℕ} {ws : WideString} {cs bytes : Bytes}
      → (c == 0) ≡ false
      → l.encode_char c ≡ some cs
      → 1 ≤ length cs
      → length cs ≤ 4
      → Encodes l ws bytes
      → Encodes l (c ∷ ws) (cs ++ bytes)

Encodes-length :
    {l : Locale} {ws : WideString} {bytes : Bytes} → Encodes l ws bytes → length ws ≤ length bytes
Encodes-length nothing = omega arith
Encodes-length (char {ws = ws} {cs} {bytes} proper encoded some_ four e) =
    omega (arith, length-append {0} cs bytes, Encodes-length e, some_)

c_string-Encodes :
    {l : Locale} {ws : WideString} {bytes : Bytes} → Encodes l ws bytes → c_string ws ≡ ws
unfolding c_string
c_string-Encodes nothing = refl
c_string-Encodes (char proper encoded some_ four e) = ground (arith, proper, c_string-Encodes e)

wcstombs-Encodes :
    {l : Locale} {ws : WideString} {bytes : Bytes} (n : ℕ)
    → Encodes l ws bytes
    → length ws * 4 ≤ n
    → wcstombs l ws n ≡ some bytes
unfolding wcstombs
wcstombs-Encodes n nothing room = refl
wcstombs-Encodes n (char {c} {ws} {cs} {bytes} proper encoded some_ four e) room =
    ground (arith, encoded, four, wcstombs-Encodes (n - length cs) e (omega (arith, room, four)))

pub take-all : (n : ℕ) (ws : WideString) → length ws ≤ n → take n ws ≡ ws
take-all zero [] h = refl
take-all zero (w ∷ ws) h = absurd (omega arith)
take-all (suc n) [] h = refl
take-all (suc n) (w ∷ ws) h = ap (λ r. w ∷ r) (take-all n ws (omega arith))

-- `maxnchar` is four times the size of the string.
abbrev pub IsShort : WideString → Type 0
IsShort ws = length ws * 4 < 2 ^ 31

-- The buffer of four bytes for each character is large enough: a wide string without a NUL, whose
-- characters have from one to four bytes each, is converted whole, and no buffer is left behind. It has
-- less than 2^29 characters.
pub to_string-Encodes :
    (l : Locale) (ws : WideString) (bytes : Bytes)
    → Encodes l ws bytes
    → IsShort ws
    → to_string l ws ≡ (ok bytes, 0)
unfolding to_string
to_string-Encodes l ws bytes e short =
    let size : length ws * 4 % 2 ^ 32 ≡ length ws * 4 = omega (arith, short) in
    ground
      (arith, size, short, c_string-Encodes e, wcstombs-Encodes (length ws * 4) e (omega arith))

-- A text without a NUL that the locale reads as a wide string, of less than 2^29 characters, none of them
-- NUL, each of which the locale writes with from one to four bytes that together are the text: it comes
-- back from the two conversions as it was, and no buffer is left behind.
pub to_string-to_wstring :
    (l : Locale) (str : Bytes) (ws : WideString)
    → c_string str ≡ str
    → l.decode str ≡ some ws
    → Encodes l ws str
    → IsShort ws
    → (to_wstring l str ≡ ok ws) × (to_string l ws ≡ (ok str, 0))
unfolding to_wstring mbstowcs
to_string-to_wstring l str ws no_nul decoded e short = (
  ground (arith, no_nul, decoded, take-all (length str) ws (Encodes-length e)),
  to_string-Encodes l ws str e short,
)

-- A character without bytes behind characters that have: wcstombs gets as far as it, and fails.
wcstombs-unencodable :
    {l : Locale} {ws : WideString} {bytes : Bytes} (n c : ℕ) (rest : WideString)
    → Encodes l ws bytes
    → length ws * 4 ≤ n
    → l.encode_char c ≡ none
    → wcstombs l (ws ++ (c ∷ rest)) n ≡ none
unfolding wcstombs
wcstombs-unencodable n c rest nothing room bad = ground (arith, bad)
wcstombs-unencodable n c rest (char {c = d} {ws} {cs} proper encoded some_ four e) room bad =
    ground (
      arith,
      encoded,
      four,
      wcstombs-unencodable (n - length cs) c rest e (omega (arith, room, four)) bad,
    )

c_string-prefix :
    {l : Locale} {ws : WideString} {bytes : Bytes} (c : ℕ) (rest : WideString)
    → Encodes l ws bytes
    → (c == 0) ≡ false
    → c_string (ws ++ (c ∷ rest)) ≡ ws ++ (c ∷ c_string rest)
unfolding c_string
c_string-prefix c rest nothing proper = ground (arith, proper)
c_string-prefix c rest (char p encoded some_ four e) proper =
    ground (arith, p, c_string-prefix c rest e proper)

-- A wide string with a character that has no bytes in the locale, behind others that have and ahead of
-- any NUL: the conversion fails with the text of std::string's constructor, and its buffer is not freed.
pub to_string-unencodable :
    (l : Locale) (ws : WideString) (bytes : Bytes) (c : ℕ) (rest : WideString)
    → Encodes l ws bytes
    → (c == 0) ≡ false
    → l.encode_char c ≡ none
    → IsShort (ws ++ (c ∷ rest))
    → to_string l (ws ++ (c ∷ rest)) ≡ (err (stop l.create_error), 1)
unfolding to_string
to_string-unencodable l ws bytes c rest e proper bad short = ground (
  arith,
  short,
  c_string-prefix c rest e proper,
  wcstombs-unencodable (length (ws ++ (c ∷ rest)) * 4) c (c_string rest) e
      (omega (arith, length-append {0} ws (c ∷ rest))) bad,
)
