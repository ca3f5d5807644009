-- ===== src/Capsules/Bag.antt =====
-- The protected cells as a bag: what the precious list is, up to its order (python.cpp).
use mathlib.Core.Quot
use mathlib.Core.Quot.{Quot}
use pyreticulate.Base.{ℕ, ◌==◌, ◌≡◌, List, [], ◌∷◌, ◌++◌, arith, if◌then◌else◌}
use pyreticulate.Capsules.{Store, count, Reach, empty_store}
use pyreticulate.Capsules.Protected.{count-append, Reach-IsAccounted}

-- Two lists hold the same cells, as often.
abbrev pub SameCells : List ℕ → List ℕ → Type 0
SameCells cs ds = (c : ℕ) → count c cs ≡ count c ds

abbrev pub Bag : Type 0
Bag = Quot SameCells

abbrev pub bag : List ℕ → Bag
bag cs = Quot.mk cs

-- Without R_NilValue, which is not preserved.
abbrev pub proper : List ℕ → List ℕ
proper [] = []
proper (c ∷ cs) = let rest = proper cs in if c == 0 then rest else c ∷ rest

count-proper : (c : ℕ) (cs : List ℕ) → count c (proper cs) ≡ (if c == 0 then 0 else count c cs)
count-proper c [] = ground arith
count-proper c (d ∷ cs) = ground (arith, count-proper c cs)

-- The cells that something still answers for: a capsule, a queued removal, or a removal that was given
-- up.
abbrev pub answered_for : Store → List ℕ
answered_for s = proper (s.live ++ (s.queue ++ s.lost))

-- In every state that the making and freeing of capsules and the runs of the queue can reach, the bag
-- of the protected cells is the bag of the cells but R_NilValue that a capsule, a queued removal or a
-- removal that was given up has.
pub Reach-bag : (s : Store) → Reach empty_store s → bag s.precious ≡ bag (answered_for s)
Reach-bag s r = Quot.sound same
  where
    same : (c : ℕ) → count c s.precious ≡ count c (answered_for s)
    same c = ground (
      arith,
      (Reach-IsAccounted c r).accounted,
      count-proper c (s.live ++ (s.queue ++ s.lost)),
      count-append c s.live (s.queue ++ s.lost),
      count-append c s.queue s.lost,
    )
