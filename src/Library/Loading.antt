-- ===== src/Library/Loading.antt =====
-- What a successful or failed loading of libpython (libpython.cpp) leaves.
use text.Mathlib.Text.{◌==◌ as str_eq}
use text.Mathlib.TextPositions.{eq_refl}
use pyreticulate.Base.{
  ℕ, ◌≡◌, refl, Bool, true, false, List, [], ◌∷◌, ◌++◌, String, arith, is_some, ◌∙◌, ap, ◌||◌,
  any_of, all_of, ◌&&◌,
}
use pyreticulate.Library.{
  Linker, Loader, slot, load_symbol, load_first, load_all, and_then, version_symbols, load_symbols,
}
use pyreticulate.Library.Symbols.{Load, common_symbols, encoder_names, last_symbols}

-- The library has the symbol.
abbrev pub present : Linker → ℕ → String → Bool
present l h name = is_some (l.dlsym h name)

abbrev pub all_present : Linker → ℕ → List Load → Bool
all_present l h ds = all_of (λ (d : Load). present l h d.0) ds

all_of-append :
    (p : Load → Bool) (xs ys : List Load) → all_of p (xs ++ ys) ≡ (all_of p xs && all_of p ys)
all_of-append p [] ys = refl
all_of-append p (x ∷ xs) ys = ground (arith, all_of-append p xs ys)

load_symbol-present :
    (l : Linker) (h : ℕ) (d : Load) (s : Loader) → (load_symbol l h d s).0 ≡ present l h d.0
unfolding load_symbol
load_symbol-present l h d s = ground arith

load_all-present :
    (l : Linker) (h : ℕ) (ds : List Load) (s : Loader) → (load_all l h ds s).0 ≡ all_present l h ds
unfolding load_all
load_all-present l h [] s = refl
load_all-present l h (d ∷ ds) s =
    ground (arith, load_symbol-present l h d s, load_all-present l h ds (load_symbol l h d s).1)

load_first-present :
    (l : Linker) (h : ℕ) (names : List String) (var : String) (s : Loader)
    → (load_first l h names var s).0 ≡ any_of (present l h) names
unfolding load_first
load_first-present l h [] var s = refl
load_first-present l h (name ∷ names) var s =
    let d : Load = (name, var) in
    ground
      (arith, load_symbol-present l h d s, load_first-present l h names var (load_symbol l h d s).1)

and_then-present :
    (r : Bool × Loader) (k : Loader → Bool × Loader) (b : Bool)
    → ((s : Loader) → (k s).0 ≡ b)
    → (and_then r k).0 ≡ (r.0 && b)
and_then-present (true, s) k b h = h s
and_then-present (false, s) k b h = refl

-- The symbols are loaded exactly if the library has every one that is asked for, for the version
-- and the width of the build, and has the string encoder under at least one of its three names.
pub load_symbols-present :
    (l : Linker) (python3 is64bit : Bool) (h : ℕ) (s : Loader)
    → (load_symbols l python3 is64bit h s).0 ≡ (
        all_present l h common_symbols
        && (any_of (present l h) encoder_names
            && all_present l h (version_symbols python3 is64bit ++ last_symbols)))
unfolding load_symbols
load_symbols-present l python3 is64bit h s =
    and_then-present _ _ _ (λ s'.
      and_then-present _ _ _
        (λ s''. load_all-present l h (version_symbols python3 is64bit ++ last_symbols) s'')
      ∙ ap (λ b. b && all_present l h (version_symbols python3 is64bit ++ last_symbols))
          (load_first-present l h encoder_names "PyUnicode_AsEncodedString" s'))
    ∙ ap
        (λ b.
          b
          && (any_of (present l h) encoder_names
              && all_present l h (version_symbols python3 is64bit ++ last_symbols)))
        (load_all-present l h common_symbols s)

-- The variable holds an address.
abbrev pub is_set : Loader → String → Bool
is_set s v = is_some (slot s.slots v)

abbrev pub all_set : Loader → List Load → Bool
all_set s ds = all_of (λ (d : Load). is_set s d.1) ds

load_symbol-is_set :
    (l : Linker) (h : ℕ) (d : Load) (s : Loader) (v : String)
    → (load_symbol l h d s).0 ≡ true
    → (str_eq d.1 v || is_set s v) ≡ true
    → is_set (load_symbol l h d s).1 v ≡ true
unfolding load_symbol
load_symbol-is_set l h d s v found old = ground arith

-- A failed attempt clears its own variable and no other.
load_symbol-other :
    (l : Linker) (h : ℕ) (d : Load) (s : Loader) (v : String)
    → (str_eq d.1 v || is_set s v) ≡ true
    → (str_eq d.1 v || is_set (load_symbol l h d s).1 v) ≡ true
unfolding load_symbol
load_symbol-other l h d s v old = ground arith

load_all-keeps :
    (l : Linker) (h : ℕ) (ds : List Load) (s : Loader) (v : String)
    → (load_all l h ds s).0 ≡ true
    → is_set s v ≡ true
    → is_set (load_all l h ds s).1 v ≡ true
unfolding load_all
load_all-keeps l h [] s v found old = old
load_all-keeps l h (d ∷ ds) s v found old =
    ground (arith, load_symbol-is_set l h d s v, load_all-keeps l h ds (load_symbol l h d s).1 v)

load_first-is_set :
    (l : Linker) (h : ℕ) (names : List String) (var : String) (s : Loader) (v : String)
    → (load_first l h names var s).0 ≡ true
    → (str_eq var v || is_set s v) ≡ true
    → is_set (load_first l h names var s).1 v ≡ true
unfolding load_first
load_first-is_set l h [] var s v found old = cc
load_first-is_set l h (name ∷ names) var s v found old =
    let d : Load = (name, var) in
    ground (
      arith,
      load_symbol-is_set l h d s v,
      load_symbol-other l h d s v,
      load_first-is_set l h names var (load_symbol l h d s).1 v,
    )

all_set-load_all :
    (l : Linker) (h : ℕ) (ds : List Load) (s : Loader)
    → (load_all l h ds s).0 ≡ true
    → all_set (load_all l h ds s).1 ds ≡ true
unfolding load_all
all_set-load_all l h [] s found = refl
all_set-load_all l h (d ∷ ds) s found = ground (
  arith,
  eq_refl d.1,
  load_symbol-is_set l h d s d.1,
  load_all-keeps l h ds (load_symbol l h d s).1 d.1,
  all_set-load_all l h ds (load_symbol l h d s).1,
)

all_set-kept :
    (s t : Loader) (ds : List Load)
    → ((v : String) → is_set s v ≡ true → is_set t v ≡ true)
    → all_set s ds ≡ true
    → all_set t ds ≡ true
all_set-kept s t [] keep old = refl
all_set-kept s t (d ∷ ds) keep old = ground (arith, keep d.1, all_set-kept s t ds keep)

or_true : (b : Bool) {c : Bool} → c ≡ true → (b || c) ≡ true
or_true true e = refl
or_true false e = e

and_then-true :
    (r : Bool × Loader) (k : Loader → Bool × Loader)
    → (and_then r k).0 ≡ true
    → (r.0 ≡ true) × ((k r.1).0 ≡ true) × (and_then r k ≡ k r.1)
and_then-true (true, s) k h = (refl, h, refl)
and_then-true (false, s) k h = cc

-- Once the symbols are loaded, every variable that the body assigns holds an address: those of the
-- common symbols, the string encoder's, and those of the version's symbols and of the last ones.
pub load_symbols-all_set :
    (l : Linker) (python3 is64bit : Bool) (h : ℕ) (s : Loader)
    → (load_symbols l python3 is64bit h s).0 ≡ true
    → let r = load_symbols l python3 is64bit h s in
      (all_set r.1 common_symbols ≡ true)
      × (is_set r.1 "PyUnicode_AsEncodedString" ≡ true)
      × (all_set r.1 (version_symbols python3 is64bit ++ last_symbols) ≡ true)
unfolding load_symbols
load_symbols-all_set l python3 is64bit h s =
    parts (version_symbols python3 is64bit ++ last_symbols) common_symbols encoder_names
      "PyUnicode_AsEncodedString"
  where
    parts :
        (vs cs : List Load) (names : List String) (var : String)
        → let r =
            and_then
              (load_all l h cs s)
              (λ s'. and_then (load_first l h names var s') (λ s''. load_all l h vs s'')) in
          r.0 ≡ true → (all_set r.1 cs ≡ true) × (is_set r.1 var ≡ true) × (all_set r.1 vs ≡ true)
    parts vs cs names var found =
        let s1 = (load_all l h cs s).1 in
        let s2 = (load_first l h names var s1).1 in
        let (c, rest, e) = and_then-true (load_all l h cs s) _ found in
        let (f, v, e') = and_then-true (load_first l h names var s1) _ rest in
        let keep = λ (w : String). load_all-keeps l h vs s2 w v in
        let first = λ (w : String) (old : is_set s1 w ≡ true).
          load_first-is_set l h names var s1 w f (or_true (str_eq var w) old) in
        rw (e ∙ e') (
          all_set-kept s1 (load_all l h vs s2).1 cs (λ w old. keep w (first w old))
              (all_set-load_all l h cs s c),
          keep var (load_first-is_set l h names var s1 var f (rw (eq_refl var) refl)),
          all_set-load_all l h vs s2 v,
        )
