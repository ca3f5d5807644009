-- ===== src/Bytes.antt =====
-- Texts as byte sequences, with the operations of `std::string` that the code uses on them.
use Prim.Native.String.{String}
use Prim.Native.Char.{code}
use pyreticulate.Base.{
  ℕ, suc, ◌≡◌, refl, Bool, true, false, ◌&&◌, ◌==◌, List, [], ◌∷◌, ◌++◌, Option, none, some,
  if◌then◌else◌, drop, length, arith,
}

abbrev pub Bytes : Type 0
Bytes = List ℕ

-- The bytes of an ASCII text.
abbrev pub codes : String → Bytes
codes String.[] = []
codes (String.◌∷◌ c s) = code c ∷ codes s

-- s.find(prefix) == 0
abbrev pub starts_with : Bytes → Bytes → Bool
starts_with [] s = true
starts_with (c ∷ p) [] = false
starts_with (c ∷ p) (d ∷ s) = (c == d) && starts_with p s

abbrev pub bytes_eq : Bytes → Bytes → Bool
bytes_eq [] [] = true
bytes_eq (c ∷ s) (d ∷ t) = (c == d) && bytes_eq s t
bytes_eq _ _ = false

-- s.find(c): the position of the first byte `c`, `none` for npos
unfoldable pub find : ℕ → Bytes → Option ℕ
find c [] = none
find c (d ∷ s) =
    let rest = find c s in
    if d == c then some 0 else elim rest [ none ↦ none | some i ↦ some (suc i) ]

pub starts_with-append : (p s : Bytes) → starts_with p (p ++ s) ≡ true
starts_with-append [] s = refl
starts_with-append (c ∷ p) s = ground (arith, starts_with-append p s)

pub drop-append : (p s : Bytes) → drop (length p) (p ++ s) ≡ s
drop-append [] s = refl
drop-append (c ∷ p) s = drop-append p s

pub bytes_eq_self : (s : Bytes) → bytes_eq s s ≡ true
bytes_eq_self [] = refl
bytes_eq_self (c ∷ s) = ground (arith, bytes_eq_self s)
