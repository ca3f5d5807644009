-- ===== src/Access/Dict/Keys.antt =====
-- The keys of a dictionary as texts (`py_dict_get_keys_as_str` of python.cpp).
use pyreticulate.Base.{
  ℕ, ◌≡◌, refl, Bool, true, false, List, [], ◌∷◌, Option, none, some, arith, String, length, ◌||◌,
}
use pyreticulate.Result.{ok, >>=-eq-ok}
use pyreticulate.PyObject.{Globals, py_unicode_check, is_py_array_scalar}
use pyreticulate.Interp.{IsClean, Interp, clear, take_ref, dec_ref, Holds}
use pyreticulate.Access.{Answer, returned, raised}
use pyreticulate.Access.Dict.{Key, as_std_string, key_text, keys_loop, py_dict_get_keys_as_str}

-- From `s` to `t` the code keeps `n` references and leaves a clean state.
abbrev pub Leaves : ℕ → Interp → Interp → Type 0
Leaves n s t = Holds n s t × IsClean t

pub as_std_string-Leaves :
    (encoded : Bool) (bytes : Answer String) (s : Interp)
    → IsClean s
    → Leaves 0 s (as_std_string encoded bytes s).1
unfolding as_std_string
as_std_string-Leaves true (returned text) s clean = ground arith
as_std_string-Leaves true (raised e) s clean = ground arith
as_std_string-Leaves false (returned text) s clean = ground arith
as_std_string-Leaves false (raised e) s clean = ground arith

key_text-Leaves : (g : Globals) (k : Key) (s : Interp) → IsClean s → Leaves 0 s (key_text g k s).1
unfolding key_text
key_text-Leaves g k s clean =
    let own =
      as_std_string-Leaves (py_unicode_check k.key || is_py_array_scalar g k.key) k.bytes s clean in
    elim k.str as (λ a. Leaves 0 s (key_text g (record k { str = a }) s).1) [
      | raised e ↦ ground (arith, clean, own)
      | returned text ↦
          ground (arith, clean, own, as_std_string-Leaves true text (take_ref s) clean)
    ]

keys_loop-Leaves :
    (g : Globals) (ks : List Key) (final : Option ℕ) (s : Interp)
    → IsClean s
    → Leaves 0 s (keys_loop g ks final s).1
unfolding keys_loop
keys_loop-Leaves g [] none s clean = (omega arith, clean)
keys_loop-Leaves g [] (some e) s clean = ground (arith, clean)
keys_loop-Leaves g (k ∷ ks) final s clean =
    let (kept, clean1) = key_text-Leaves g k (take_ref s) clean in
    let rest = keys_loop-Leaves g ks final (dec_ref (key_text g k (take_ref s)).1) clean1 in
    ground (arith, kept, clean1, rest)

keys_loop-length :
    (g : Globals) (ks : List Key) (final : Option ℕ) (s : Interp) (ts : List String)
    → (keys_loop g ks final s).0 ≡ ok ts
    → (final ≡ none) × (length ts ≡ length ks)
unfolding keys_loop
keys_loop-length g [] none s ts h = ground arith
keys_loop-length g [] (some e) s ts h = ground arith
keys_loop-length g (k ∷ ks) final s ts h =
    let (k_text, s1) = key_text g k (take_ref s) in
    let (t, e, h1) = >>=-eq-ok k_text _ h in
    let (us, e2, h2) = >>=-eq-ok (keys_loop g ks final (dec_ref s1)).0 _ h1 in
    let (no_error, same) = keys_loop-length g ks final (dec_ref s1) us e2 in
    (no_error, ground (arith, same, h2))

-- The keys as texts, from a clean state: every reference is given back and
-- none is pending behind, on every path: the object has no keys, they cannot be iterated, a key's
-- text cannot be read, or the iterator raises.
pub py_dict_get_keys_as_str-Leaves :
    (g : Globals) (keys method : Answer (Unit {0})) (iterator : Answer (List Key × Option ℕ))
    (s : Interp)
    → IsClean s
    → Leaves 0 s (py_dict_get_keys_as_str g keys method iterator s).1
unfolding py_dict_get_keys_as_str
py_dict_get_keys_as_str-Leaves g (returned u) method (raised e) s clean = ground (arith, clean)
py_dict_get_keys_as_str-Leaves g (raised e) (raised e') iterator s clean = ground (arith, clean)
py_dict_get_keys_as_str-Leaves g (raised e) (returned u) (raised e') s clean = ground (arith, clean)
py_dict_get_keys_as_str-Leaves g (raised e) (returned u) (returned ks) s clean =
    ground (arith, keys_loop-Leaves g ks.0 ks.1 (take_ref (take_ref (clear s))) (refl, clean.1))
py_dict_get_keys_as_str-Leaves g (returned u) method (returned ks) s clean =
    ground (arith, keys_loop-Leaves g ks.0 ks.1 (take_ref (take_ref s)) clean)

-- Keys that are read as texts are as many as the iterator gives, and the iterator did not raise.
pub py_dict_get_keys_as_str-length :
    (g : Globals) (keys method : Answer (Unit {0})) (ks : List Key) (final : Option ℕ) (s : Interp)
    (ts : List String)
    → (py_dict_get_keys_as_str g keys method (returned (ks, final)) s).0 ≡ ok ts
    → (final ≡ none) × (length ts ≡ length ks)
unfolding py_dict_get_keys_as_str
py_dict_get_keys_as_str-length g (returned u) method ks final s ts h =
    keys_loop-length g ks final (take_ref (take_ref s)) ts h
py_dict_get_keys_as_str-length g (raised e) (returned u) ks final s ts h =
    keys_loop-length g ks final (take_ref (take_ref (clear s))) ts h
py_dict_get_keys_as_str-length g (raised e) (raised e') ks final s ts h = ground (arith, h)
