-- ===== src/Formals/Dots.antt =====
-- The dots among the formals that `py_get_formals` (python.cpp) makes.
use text.Mathlib.Text.{◌==◌ as str_eq}
use mathlib.Core.Path.{ap₂}
use pyreticulate.Base.{
  ℕ, ◌+◌, ◌≡◌, refl, sym, ap, ◌∙◌, Bool, false, ◌||◌, List, [], ◌∷◌, ◌++◌, Option, none, some,
  String, if◌then◌else◌, arith, flag, any_of,
}
use pyreticulate.Result.{ok, >>=-eq-ok}
use pyreticulate.PyObject.{Globals}
use pyreticulate.Formals.{
  Param, Formal, is_variadic, is_keyword_only, add_param, formals_loop, py_get_formals,
}

-- How many formals are the dots, and the names of the others.
abbrev pub count_dots : List Formal → ℕ
count_dots [] = 0
count_dots (f ∷ fs) = flag (str_eq f.0 "...") + count_dots fs

abbrev pub named : List Formal → List String
named [] = []
named (f ∷ fs) = if str_eq f.0 "..." then named fs else f.0 ∷ named fs

-- A parameter that asks for the dots, and the names that the signature gives to formals.
abbrev pub wants_dots : Param → Bool
wants_dots p = elim p.kind [ none ↦ false | some k ↦ is_variadic k || is_keyword_only k ]

abbrev pub names : Param → List String
names p = elim p.kind [
  | none ↦ []
  | some k ↦ if is_variadic k then [] else elim p.name [ none ↦ [] | some n ↦ n ∷ [] ]
]

abbrev pub all_names : List Param → List String
all_names [] = []
all_names (p ∷ ps) = names p ++ all_names ps

-- No parameter is called like the dots.
abbrev pub IsPlainNamed : List Param → Type 0
IsPlainNamed [] = Unit
IsPlainNamed (p ∷ ps) = ((n : String) → p.name ≡ some n → str_eq n "..." ≡ false) × IsPlainNamed ps

count_dots-append : (fs gs : List Formal) → count_dots (fs ++ gs) ≡ count_dots fs + count_dots gs
count_dots-append [] gs = omega arith
count_dots-append (f ∷ fs) gs = omega (arith, count_dots-append fs gs)

named-append : (fs gs : List Formal) → named (fs ++ gs) ≡ named fs ++ named gs
named-append [] gs = refl
named-append (f ∷ fs) gs = ground (arith, named-append fs gs)

add_param_lem :
    (g : Globals) (p : Param) (has_dots : Bool) (r : List Formal × Bool)
    → ((n : String) → p.name ≡ some n → str_eq n "..." ≡ false)
    → add_param g p has_dots ≡ ok r
    → (count_dots r.0 + flag has_dots ≡ flag r.1)
      × (r.1 ≡ (has_dots || wants_dots p))
      × (named r.0 ≡ names p)
unfolding add_param
add_param_lem g p has_dots r plain h = by_name p.name refl
  where
    by_name :
        (o : Option String)
        → p.name ≡ o
        → (count_dots r.0 + flag has_dots ≡ flag r.1)
          × (r.1 ≡ (has_dots || wants_dots p))
          × (named r.0 ≡ names p)
    by_name none e = ground arith
    by_name (some n) e = ground (arith, plain n e)

ok-injective : {s t : List Formal} → ok s ≡ ok t → s ≡ t
ok-injective h = cc

dots_total :
    (has p ps r1 : Bool) (n m k : ℕ)
    → n ≡ m + k
    → m + flag has ≡ flag r1
    → r1 ≡ (has || p)
    → k + flag r1 ≡ flag (r1 || ps)
    → n + flag has ≡ flag (has || (p || ps))
dots_total has p ps r1 n m k a b c d = ground arith

formals_loop_lem :
    (g : Globals) (ps : List Param) (has_dots fails : Bool) (fs : List Formal)
    → IsPlainNamed ps
    → formals_loop g ps has_dots fails ≡ ok fs
    → (count_dots fs + flag has_dots ≡ flag (has_dots || any_of wants_dots ps))
      × (named fs ≡ all_names ps)
unfolding formals_loop
formals_loop_lem g [] has_dots fails fs plain h = ground arith
formals_loop_lem g (p ∷ ps) has_dots fails fs plain h =
    let (r, e, h1) = >>=-eq-ok (add_param g p has_dots) _ h in
    let (rest, e', h2) = >>=-eq-ok (formals_loop g ps r.1 fails) _ h1 in
    let (count, has, own) = add_param_lem g p has_dots r plain.0 e in
    let (counts, others) = formals_loop_lem g ps r.1 fails rest plain.1 e' in
    let joined : r.0 ++ rest ≡ fs = ok-injective h2 in
    (
      let c : count_dots fs ≡ count_dots r.0 + count_dots rest =
            ap count_dots (sym joined) ∙ count_dots-append r.0 rest in
          dots_total has_dots (wants_dots p) (any_of wants_dots ps) r.1 _ _ _ c count has counts,
      ap named (sym joined) ∙ named-append r.0 rest ∙ ap₂ (λ x y. x ++ y) own others,
    )

-- The formals of a callable with a signature, when they are made, hold the dots once if some
-- parameter is variadic or may only be given by keyword, and not at all otherwise; their other names
-- are those of the parameters that are not variadic, in the signature's order. No parameter may
-- itself be named like the dots.
pub py_get_formals_lem :
    (g : Globals) (ps : List Param) (fails : Bool) (fs : List Formal)
    → IsPlainNamed ps
    → py_get_formals g (some (ps, fails)) ≡ ok fs
    → (count_dots fs ≡ flag (any_of wants_dots ps)) × (named fs ≡ all_names ps)
unfolding py_get_formals
py_get_formals_lem g ps fails fs plain h =
    let (count, own) = formals_loop_lem g ps false fails fs plain h in (omega arith, own)
