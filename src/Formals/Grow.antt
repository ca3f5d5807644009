-- ===== src/Formals/Grow.antt =====
-- `NewList` and `GrowList` (python.cpp) keep a list that grows at its end.
use mathlib.Core.Path.{subst}
use pyreticulate.Base.{
  Bool-cases, inl, inr, ℕ, ◌≡◌, ◌≢◌, refl, ◌∙◌, sym, ap, Bool, true, false, ◌||◌, ◌==◌, List, [],
  ◌∷◌, ◌++◌, Option, String, arith,
}
use pyreticulate.Sexp.{Sexp}
use pyreticulate.Formals.{cell, value, Heap, write, new_list, grow_list}

-- What a cell stands for: its address, tag and value.
abbrev pub Cell : Type 0
Cell = ℕ × String × Option Sexp

abbrev pub used : ℕ → List Cell → Bool
used a [] = false
used a ((b, t, v) ∷ cs) = (a == b) || used a cs

-- From `p` the CDRs lead through the cells, all of different addresses, to R_NilValue.
abbrev pub Chain : Heap → ℕ → List Cell → Type 0
Chain h p [] = p ≡ 0
Chain h p ((a, t, v) ∷ cs) =
    (p ≡ a)
    × ((h a).car ≡ value v)
    × ((h a).tag ≡ t)
    × (used a cs ≡ false)
    × (a ≢ 0)
    × Chain h (h a).cdr cs

abbrev pub last_cell : ℕ → List Cell → ℕ
last_cell s [] = s
last_cell s ((a, t, v) ∷ cs) = last_cell a cs

-- `s` is the head of a stretchy list of the cells.
pub record IsStretchy (h : Heap) (s : ℕ) (cs : List Cell) : Type 0 where
  pub chain : Chain h (h s).cdr cs
  pub last : (h s).car ≡ cell (last_cell s cs)
  pub apart : used s cs ≡ false

used-append :
    (x : ℕ) (cs : List Cell) (a : ℕ) (t : String) (v : Option Sexp)
    → used x (cs ++ (a, t, v) ∷ []) ≡ (used x cs || (x == a))
used-append x [] a t v = ground arith
used-append x ((b, u, w) ∷ cs) a t v = ground (arith, used-append x cs a t v)

used-last_cell :
    (b : ℕ) (u : String) (w : Option Sexp) (cs : List Cell)
    → used (last_cell b cs) ((b, u, w) ∷ cs) ≡ true
used-last_cell b u w [] = ground arith
used-last_cell b u w ((c, x, y) ∷ cs) = ground (arith, used-last_cell c x y cs)

differs_of_used :
    (x l : ℕ) (cs : List Cell) → used x cs ≡ false → used l cs ≡ true → (x == l) ≡ false
differs_of_used x l cs out inside = elim (Bool-cases (x == l)) [
  | inl e ↦
      let eq : x ≡ l = ground arith in
      let clash : true ≡ false = sym inside ∙ sym (ap (λ k. used k cs) eq) ∙ out in cc
  | inr e ↦ e
]

-- The chain after the last cell's CDR is set to a new last cell.
Chain-snoc :
    (h g : Heap) (p fresh : ℕ) (cs : List Cell) (tag : String) (dflt : Option Sexp) (s : ℕ)
    → Chain h p cs
    → cs ≢ []
    → used fresh cs ≡ false
    → fresh ≢ 0
    → ((a : ℕ) → used a cs ≡ true → (a == last_cell s cs) ≡ false → g a ≡ h a)
    → ((g (last_cell s cs)).car ≡ (h (last_cell s cs)).car)
    → ((g (last_cell s cs)).tag ≡ (h (last_cell s cs)).tag)
    → ((g (last_cell s cs)).cdr ≡ fresh)
    → (g fresh ≡ record { car = value dflt; cdr = 0; tag = tag })
    → Chain g p (cs ++ (fresh, tag, dflt) ∷ [])
Chain-snoc h g p fresh [] tag dflt s c some_cells out live same car tag_same cdr new =
    absurd (some_cells refl)
Chain-snoc h g p fresh ((a, t, v) ∷ []) tag dflt s c some_cells out live same car tag_same cdr new =
    (
      c.0,
      car ∙ c.1,
      tag_same ∙ c.2,
      ground arith,
      c.4,
      (cdr, ap (λ n. n.car) new, ap (λ n. n.tag) new, refl, live, ap (λ n. n.cdr) new),
    )
Chain-snoc h g p fresh ((a, t, v) ∷ (b, u, w) ∷ cs) tag dflt s c some_cells out live same car
      tag_same cdr new =
    let rest : List Cell = (b, u, w) ∷ cs in
    let away = differs_of_used a (last_cell b cs) rest c.3 (used-last_cell b u w cs) in
    let kept : g a ≡ h a = same a (ground arith) away in
    let tail =
      Chain-snoc h g (h a).cdr fresh ((b, u, w) ∷ cs) tag dflt b c.5 (λ e. cc) (ground arith) live
        (λ x i ne. same x (ground arith) ne) car tag_same cdr new in
    (
      c.0,
      ap (λ n. n.car) kept ∙ c.1,
      ap (λ n. n.tag) kept ∙ c.2,
      used-append a rest fresh tag dflt ∙ ground arith,
      c.4,
      subst (λ q. Chain g q (rest ++ (fresh, tag, dflt) ∷ [])) (ap (λ n. n.cdr) (sym kept)) tail,
    )

swapped : (a b : ℕ) → (a == b) ≡ false → (b == a) ≡ false
swapped a b h = ground arith

not_used : (x a : ℕ) (cs : List Cell) → used x cs ≡ false → used a cs ≡ true → (a == x) ≡ false
not_used x a cs out inside = swapped x a (differs_of_used x a cs out inside)

pub new_list-IsStretchy : (fresh : ℕ) (h : Heap) → IsStretchy (new_list fresh h) fresh []
unfolding new_list write
new_list-IsStretchy fresh h = ground arith

last_cell-append :
    (s : ℕ) (cs : List Cell) (a : ℕ) (t : String) (v : Option Sexp)
    → last_cell s (cs ++ (a, t, v) ∷ []) ≡ a
last_cell-append s [] a t v = refl
last_cell-append s ((b, u, w) ∷ cs) a t v = last_cell-append b cs a t v

-- The cells after a call, with the last cell another than the head.
grow_list-cells :
    (h : Heap) (s fresh l : ℕ) (tag : String) (dflt : Option Sexp)
    → (h s).car ≡ cell l
    → (fresh == s) ≡ false
    → (fresh == l) ≡ false
    → (s == l) ≡ false
    → let g = grow_list fresh s tag dflt h in
      ((g l).car ≡ (h l).car)
      × ((g l).tag ≡ (h l).tag)
      × ((g l).cdr ≡ fresh)
      × (g fresh ≡ record { car = value dflt; cdr = 0; tag = tag })
      × ((g s).cdr ≡ (h s).cdr)
      × ((g s).car ≡ cell fresh)
unfolding grow_list write
grow_list-cells h s fresh l tag dflt e fs fl sl = ground arith

grow_list-others :
    (h : Heap) (s fresh l a : ℕ) (tag : String) (dflt : Option Sexp)
    → (h s).car ≡ cell l
    → (fresh == s) ≡ false
    → (a == fresh) ≡ false
    → (a == s) ≡ false
    → (a == l) ≡ false
    → grow_list fresh s tag dflt h a ≡ h a
unfolding grow_list write
grow_list-others h s fresh l a tag dflt e fs af as_ al = ground arith

grow_list-more :
    (h : Heap) (s fresh b : ℕ) (u : String) (w : Option Sexp) (cs : List Cell) (tag : String)
    (dflt : Option Sexp)
    → IsStretchy h s ((b, u, w) ∷ cs)
    → used fresh ((b, u, w) ∷ cs) ≡ false
    → fresh ≢ 0
    → (fresh == s) ≡ false
    → IsStretchy (grow_list fresh s tag dflt h) s (((b, u, w) ∷ cs) ++ (fresh, tag, dflt) ∷ [])
grow_list-more h s fresh b u w cs tag dflt v out live apart =
    let all : List Cell = (b, u, w) ∷ cs in
    let l = last_cell b cs in
    let g = grow_list fresh s tag dflt h in
    let inside = used-last_cell b u w cs in
    let fl = differs_of_used fresh l all out inside in
    let sl = differs_of_used s l all v.apart inside in
    let (car, tag_same, cdr, new, next, last) =
      grow_list-cells h s fresh l tag dflt v.last apart fl sl in
    let same = λ (a : ℕ) (i : used a all ≡ true) (ne : (a == l) ≡ false).
      grow_list-others h s fresh l a tag dflt v.last apart (not_used fresh a all out i)
        (not_used s a all v.apart i) ne in
    record {
      chain =
          subst (λ q. Chain g q (all ++ (fresh, tag, dflt) ∷ [])) (sym next)
            (Chain-snoc h g (h s).cdr fresh all tag dflt s v.chain (λ e. cc) out live same car
              tag_same cdr new);
      last = last ∙ ap cell (sym (last_cell-append s all fresh tag dflt));
      apart = used-append s all fresh tag dflt ∙ rw v.apart (swapped fresh s apart);
    }

-- An element that is grown onto a stretchy list stands behind the elements
-- that were there, with the tag and the default given; the list is again one to grow. The new cell
-- must be none of the list's, nor its head, nor R_NilValue.
pub grow_list-IsStretchy :
    (h : Heap) (s fresh : ℕ) (cs : List Cell) (tag : String) (dflt : Option Sexp)
    → IsStretchy h s cs
    → used fresh cs ≡ false
    → fresh ≢ 0
    → fresh ≢ s
    → IsStretchy (grow_list fresh s tag dflt h) s (cs ++ (fresh, tag, dflt) ∷ [])
unfolding grow_list write
grow_list-IsStretchy h s fresh [] tag dflt v out live apart = ground arith
grow_list-IsStretchy h s fresh (c ∷ cs) tag dflt v out live apart =
    grow_list-more h s fresh c.0 c.1 c.2 cs tag dflt v out live (ground arith)
