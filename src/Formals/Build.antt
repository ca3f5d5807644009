-- ===== src/Formals/Build.antt =====
-- `py_get_formals` (python.cpp) on the heap: its loop grows the stretchy list, and the result is the
-- CDR of its head. The addresses of new cells come from the allocator; no two are the same, and none
-- is R_NilValue.
use mathlib.Core.List.{append_assoc, append-nil}
use mathlib.Core.Path.{subst}
use pyreticulate.Base.{
  ℕ, suc, ◌+◌, ◌≡◌, ◌≢◌, ◌≤◌, refl, sym, ap, ◌∙◌, Bool, true, false, List, [], ◌∷◌, ◌++◌, Option,
  none, some, String, if◌then◌else◌, arith, length, length-append,
}
use pyreticulate.Result.{Result, ok, err, python_exception, ◌>>=◌}
use pyreticulate.Sexp.{Sexp}
use pyreticulate.PyObject.{Globals}
use pyreticulate.Formals.{
  value, Heap, write, new_list, grow_list, Param, Formal, add_param, formals_loop, py_get_formals,
}
use pyreticulate.Formals.Grow.{
  Cell, Chain, used, IsStretchy, grow_list-IsStretchy, new_list-IsStretchy,
}

-- The calls of GrowList for the formals of one parameter, from the `n`-th new cell on.
unfoldable pub grow_all : (ℕ → ℕ) → ℕ → ℕ → List Formal → Heap → Heap
grow_all alloc s n [] h = h
grow_all alloc s n ((tag, v) ∷ fs) h = grow_all alloc s (n + 1) fs (grow_list (alloc n) s tag v h)

unfoldable pub build_loop :
    Globals → (ℕ → ℕ) → ℕ → List Param → Bool → Bool → ℕ → Heap → Result Heap
unfolding grow_all
build_loop g alloc s [] has_dots fails n h = if fails then err python_exception else ok h
build_loop g alloc s (p ∷ ps) has_dots fails n h = add_param g p has_dots >>= λ r.
    build_loop g alloc s ps r.1 fails (n + length r.0) (grow_all alloc s n r.0 h)

-- The address of the first formal, and the heap.
unfoldable pub build_formals :
    Globals → (ℕ → ℕ) → Option (List Param × Bool) → Heap → Result (ℕ × Heap)
unfolding build_loop
build_formals g alloc none h =
    ok (alloc 0, write h (alloc 0) (record { car = value none; cdr = 0; tag = "..." }))
build_formals g alloc (some (params, fails)) h =
    build_loop g alloc (alloc 0) params false fails 1 (new_list (alloc 0) h) >>= λ h'.
    ok ((h' (alloc 0)).cdr, h')

-- The cells of formals, from the `n`-th new cell on.
abbrev pub cells : (ℕ → ℕ) → ℕ → List Formal → List Cell
cells alloc n [] = []
cells alloc n ((tag, v) ∷ fs) = (alloc n, tag, v) ∷ cells alloc (n + 1) fs

module _ (alloc : ℕ → ℕ) (apart : (i j : ℕ) → alloc i ≡ alloc j → i ≡ j) where
  used-cells :
      (m n : ℕ) (fs : List Formal) → n + length fs ≤ m → used (alloc m) (cells alloc n fs) ≡ false
  used-cells m n [] h = refl
  used-cells m n ((tag, v) ∷ fs) h = ground (arith, apart m n, used-cells m (n + 1) fs)

cells-snoc :
    (alloc : ℕ → ℕ) (n : ℕ) (fs : List Formal) (tag : String) (v : Option Sexp)
    → cells alloc n (fs ++ (tag, v) ∷ []) ≡ cells alloc n fs ++ (alloc (n + length fs), tag, v) ∷ []
cells-snoc alloc n [] tag v = ap (λ k. (alloc k, tag, v) ∷ []) (omega arith)
cells-snoc alloc n ((t, w) ∷ fs) tag v =
    let at_end : n + 1 + length fs ≡ n + suc (length fs) = omega arith in
    ap (λ cs. (alloc n, t, w) ∷ cs)
      (cells-snoc alloc (n + 1) fs tag v
        ∙ ap (λ k. cells alloc (n + 1) fs ++ (alloc k, tag, v) ∷ []) at_end)

-- An allocator of R's cells.
pub record IsAllocator (alloc : ℕ → ℕ) : Type 0 where
  pub apart : (i j : ℕ) → alloc i ≡ alloc j → i ≡ j
  pub proper : (i : ℕ) → alloc i ≢ 0

grow_all-IsStretchy :
    (alloc : ℕ → ℕ) (gs fs : List Formal) (n : ℕ) (h : Heap)
    → IsAllocator alloc
    → n ≡ 1 + length fs
    → IsStretchy h (alloc 0) (cells alloc 1 fs)
    → IsStretchy (grow_all alloc (alloc 0) n gs h) (alloc 0) (cells alloc 1 (fs ++ gs))
unfolding grow_all
grow_all-IsStretchy alloc [] fs n h a e v = rw append-nil v
grow_all-IsStretchy alloc ((tag, w) ∷ gs) fs n h a e v =
    let new : used (alloc n) (cells alloc 1 fs) ≡ false =
      used-cells alloc a.apart n 1 fs (omega arith) in
    let grown =
      grow_list-IsStretchy h (alloc 0) (alloc n) (cells alloc 1 fs) tag w v new (a.proper n)
        (λ same. absurd (omega (arith, a.apart n 0 same))) in
    let there : cells alloc 1 fs ++ (alloc n, tag, w) ∷ [] ≡ cells alloc 1 (fs ++ (tag, w) ∷ []) =
      ap (λ k. cells alloc 1 fs ++ (alloc k, tag, w) ∷ []) e ∙ sym (cells-snoc alloc 1 fs tag w) in
    let rest =
      grow_all-IsStretchy alloc gs (fs ++ (tag, w) ∷ []) (n + 1) _ a
        (omega (arith, length-append fs ((tag, w) ∷ [])))
        (subst (λ cs. IsStretchy (grow_list (alloc n) (alloc 0) tag w h) (alloc 0) cs) there
          grown) in
    subst
      (λ all.
        IsStretchy (grow_all alloc (alloc 0) (n + 1) gs (grow_list (alloc n) (alloc 0) tag w h))
          (alloc 0) (cells alloc 1 all))
      (append_assoc fs ((tag, w) ∷ []) gs) rest

-- The heap of the loop holds what the list of the loop holds, and the loop fails alike.
abbrev Builds : (ℕ → ℕ) → List Formal → Result (List Formal) → Result Heap → Type 0
Builds alloc fs (err e) r = r ≡ err e
Builds alloc fs (ok gs) r =
    (h : Heap) × (r ≡ ok h) × IsStretchy h (alloc 0) (cells alloc 1 (fs ++ gs))

Builds-append :
    (alloc : ℕ → ℕ) (fs gs : List Formal) (pure_result : Result (List Formal)) (r : Result Heap)
    → Builds alloc (fs ++ gs) pure_result r
    → Builds alloc fs (pure_result >>= λ rest. ok (gs ++ rest)) r
Builds-append alloc fs gs (err e) r h = h
Builds-append alloc fs gs (ok rest) r (h, e, v) =
    (h, e, subst (λ all. IsStretchy h (alloc 0) (cells alloc 1 all)) (append_assoc fs gs rest) v)

build_loop-Builds :
    (g : Globals) (alloc : ℕ → ℕ) (ps : List Param) (has_dots fails : Bool) (fs : List Formal)
    (n : ℕ) (h : Heap)
    → IsAllocator alloc
    → n ≡ 1 + length fs
    → IsStretchy h (alloc 0) (cells alloc 1 fs)
    → Builds alloc fs
        (formals_loop g ps has_dots fails)
        (build_loop g alloc (alloc 0) ps has_dots fails n h)
unfolding formals_loop build_loop
build_loop-Builds g alloc [] has_dots true fs n h a e v = refl
build_loop-Builds g alloc [] has_dots false fs n h a e v = (h, refl, rw append-nil v)
build_loop-Builds g alloc (p ∷ ps) has_dots fails fs n h a e v =
    by_param (build_loop-Builds g alloc ps) (add_param g p has_dots) refl
  where
    by_param :
        ((has_dots' fails' : Bool) (fs' : List Formal) (n' : ℕ) (h' : Heap)
          → IsAllocator alloc
          → n' ≡ 1 + length fs'
          → IsStretchy h' (alloc 0) (cells alloc 1 fs')
          → Builds alloc fs'
              (formals_loop g ps has_dots' fails')
              (build_loop g alloc (alloc 0) ps has_dots' fails' n' h'))
        → (r : Result (List Formal × Bool)) → add_param g p has_dots ≡ r
        → Builds alloc fs
            (formals_loop g (p ∷ ps) has_dots fails)
            (build_loop g alloc (alloc 0) (p ∷ ps) has_dots fails n h)
    by_param ih (err f) q = rw q refl
    by_param ih (ok r) q = rw q (
        Builds-append alloc fs r.0 (formals_loop g ps r.1 fails) _ (
          ih r.1 fails (fs ++ r.0) (n + length r.0) (grow_all alloc (alloc 0) n r.0 h) a
            (omega (arith, length-append fs r.0)) (grow_all-IsStretchy alloc r.0 fs n h a e v)))

-- The formals that the heap's result stands for.
abbrev pub Represents : (ℕ → ℕ) → Result (List Formal) → Result (ℕ × Heap) → Type 0
Represents alloc (err e) r = r ≡ err e
Represents alloc (ok fs) r =
    (first : ℕ) × (h : Heap) × (i : ℕ) × (r ≡ ok (first, h)) × Chain h first (cells alloc i fs)

-- The construction on the heap of cons cells implements the list of formals: it fails exactly as the
-- list does, and otherwise gives the address from which a chain of new cells leads, in order, through
-- the names and defaults of the list to R_NilValue.
pub build_formals-Represents :
    (g : Globals) (alloc : ℕ → ℕ) (signature : Option (List Param × Bool)) (h : Heap)
    → IsAllocator alloc
    → Represents alloc (py_get_formals g signature) (build_formals g alloc signature h)
unfolding py_get_formals build_formals write
build_formals-Represents g alloc none h a = (
  alloc 0,
  write h (alloc 0) (record { car = value none; cdr = 0; tag = "..." }),
  0,
  refl,
  ground (arith, a.proper 0),
)
build_formals-Represents g alloc (some (params, fails)) h a =
    finish (formals_loop g params false fails)
      (build_loop g alloc (alloc 0) params false fails 1 (new_list (alloc 0) h))
      (build_loop-Builds g alloc params false fails [] 1 (new_list (alloc 0) h) a (omega arith)
        (new_list-IsStretchy (alloc 0) h))
  where
    finish :
        (pure_result : Result (List Formal)) (r : Result Heap)
        → Builds alloc [] pure_result r
        → Represents alloc pure_result (r >>= λ h'. ok ((h' (alloc 0)).cdr, h'))
    finish (err e) r b = rw b refl
    finish (ok fs) r (h', e, v) = ((h' (alloc 0)).cdr, h', 1, rw e refl, v.chain)
