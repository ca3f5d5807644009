-- ===== src/Readline.antt =====
-- Reading of a line from R's console (readline.cpp). The buffer behind the call of `R_ReadConsole` is
-- given; the status of that call is not looked at.
use pyreticulate.Base.{
  ℕ, zero, suc, ◌-◌, ◌<◌, ◌≤◌, ◌≡◌, refl, arith, Bool, true, not, ◌&&◌, ◌==◌, [], ◌∷◌, ◌++◌, Option,
  none, some, length, take, all_of, if◌then◌else◌, ap,
}
use pyreticulate.Bytes.{Bytes, find}

abbrev pub readline_buffer_size : ℕ
readline_buffer_size = 8192

-- buffer[i] = c
unfoldable pub set_at : ℕ → ℕ → Bytes → Bytes
set_at i c [] = []
set_at zero c (b ∷ buffer) = c ∷ buffer
set_at (suc i) c (b ∷ buffer) = b ∷ set_at i c buffer

-- The bytes ahead of the first NUL.
unfoldable pub c_string : Bytes → Bytes
c_string [] = []
c_string (b ∷ buffer) = let rest = c_string buffer in if b == 0 then [] else b ∷ rest

-- `none` is R_NilValue.
unfoldable pub readline : Bytes → Option Bytes
unfolding set_at c_string
readline buffer =
    let terminated = set_at (readline_buffer_size - 1) 0 buffer in
    elim (find 10 (c_string terminated)) [ none ↦ none | some index ↦ some (take index terminated) ]

-- No byte is a NUL or ends a line.
abbrev pub is_line : Bytes → Bool
is_line text = all_of (λ c. not (c == 0) && not (c == 10)) text

find-line :
    (text behind : Bytes) (n : ℕ)
    → is_line text ≡ true
    → length text < n
    → find 10 (c_string (set_at n 0 (text ++ 10 ∷ behind))) ≡ some (length text)
unfolding find c_string set_at
find-line [] behind (suc n) line short = refl
find-line (c ∷ text) behind (suc n) line short =
    ground (arith, line, find-line text behind n (ground (arith, line)) (omega (arith, short)))
find-line text behind zero line short = absurd (omega (arith, short))

take-line :
    (text behind : Bytes) (n : ℕ)
    → length text < n
    → take (length text) (set_at n 0 (text ++ 10 ∷ behind)) ≡ text
unfolding set_at
take-line [] behind n short = refl
take-line (c ∷ text) behind (suc n) short =
    ap (λ cs. c ∷ cs) (take-line text behind n (omega (arith, short)))
take-line (c ∷ text) behind zero short = absurd (omega (arith, short))

-- A line that the user enters, of at most 8190 bytes and without a NUL, is returned without its end,
-- whatever the buffer holds behind it.
pub readline-line :
    (text behind : Bytes)
    → is_line text ≡ true
    → length text < 8191
    → readline (text ++ 10 ∷ behind) ≡ some text
unfolding readline
readline-line text behind line short =
    ground (arith, find-line text behind 8191 line short, take-line text behind 8191 short)

find-long :
    (text behind : Bytes) (n : ℕ)
    → is_line text ≡ true
    → n ≤ length text
    → find 10 (c_string (set_at n 0 (text ++ behind))) ≡ none
unfolding find c_string set_at
find-long [] [] zero line long = refl
find-long [] (b ∷ behind) zero line long = refl
find-long (c ∷ text) behind zero line long = refl
find-long [] behind (suc n) line long = absurd (omega (arith, long))
find-long (c ∷ text) behind (suc n) line long =
    ground (arith, line, find-long text behind n (ground (arith, line)) (omega (arith, long)))

-- When the first 8191 bytes hold no end of a line and no NUL, the result is NULL, as for input that
-- the user cancels.
pub readline-long :
    (text behind : Bytes)
    → is_line text ≡ true
    → 8191 ≤ length text
    → readline (text ++ behind) ≡ none
unfolding readline
readline-long text behind line long = ground (arith, find-long text behind 8191 line long)
