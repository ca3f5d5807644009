-- ===== src/Interp/Pointer.antt =====
-- `PyPtr` of python.cpp, which owns a reference until its scope is left. An object is its address.
use pyreticulate.Base.{
  ◌&&◌, not, ℕ, ◌+◌, ◌≡◌, refl, arith, Bool, true, false, List, [], ◌∷◌, Option, none, some,
  if◌then◌else◌, flag, is_some,
}
use pyreticulate.Interp.{Interp, take_ref, dec_ref}

pub record PyPtr : Type 0 where
  pub object : Option ℕ  -- `none` for NULL

-- The constructors, the destructor, and the other members.
unfoldable pub py_ptr : Option ℕ → PyPtr
py_ptr object = record { object = object }

unfoldable pub destroy : PyPtr → Interp → Interp
destroy p s = elim p.object [ none ↦ s | some o ↦ dec_ref s ]

unfoldable pub assign : Option ℕ → PyPtr → PyPtr
assign object p = record p { object = object }

unfoldable pub detach : PyPtr → Option ℕ × PyPtr
detach p = (p.object, record p { object = none })

unfoldable pub is_null : PyPtr → Bool
is_null p = elim p.object [ none ↦ true | some o ↦ false ]

-- What a scope does with a pointer: it assigns a call's new reference, or NULL, or it detaches the
-- object for someone else to own.
pub data Use : Type 0 where
  assigned : Option ℕ → Use
  detached : Use

-- The uses in turn, from a pointer: the pointer behind, the interpreter, and how many references were
-- handed out and how many were overwritten.
pub record Scope : Type 0 where
  pub pointer : PyPtr
  pub interp : Interp
  pub handed_out : ℕ
  pub overwritten : ℕ

abbrev pub held_by_pointer : PyPtr → ℕ
held_by_pointer p = flag (is_some p.object)

unfoldable pub use_pointer : Use → Scope → Scope
unfolding assign detach
use_pointer (assigned object) c = record {
  pointer = assign object c.pointer;
  interp = if is_some object then take_ref c.interp else c.interp;
  handed_out = c.handed_out;
  overwritten = c.overwritten + held_by_pointer c.pointer;
}
use_pointer detached c =
    let (object, p) = detach c.pointer in
    record c { pointer = p; handed_out = c.handed_out + flag (is_some object) }

unfoldable pub use_all : List Use → Scope → Scope
unfolding use_pointer
use_all [] c = c
use_all (u ∷ uses) c = use_all uses (use_pointer u c)

-- The whole scope of a pointer that begins with `object`.
unfoldable pub scope : Option ℕ → List Use → Interp → Scope
unfolding use_all destroy py_ptr
scope object uses s =
    let c =
      use_all uses
        (record { pointer = py_ptr object; interp = s; handed_out = 0; overwritten = 0 }) in
    record c { interp = destroy c.pointer c.interp }

-- The references that a scope has in its hands.
abbrev pub IsOwed : Scope → Scope → Type 0
IsOwed c d =
    (d.interp.taken
        + (c.interp.released + (held_by_pointer c.pointer + (c.handed_out + c.overwritten)))
      ≡ c.interp.taken
        + (d.interp.released + (held_by_pointer d.pointer + (d.handed_out + d.overwritten))))
    × (d.interp.error ≡ c.interp.error)

use_pointer-IsOwed : (u : Use) (c : Scope) → IsOwed c (use_pointer u c)
unfolding use_pointer
use_pointer-IsOwed (assigned object) c = ground arith
use_pointer-IsOwed detached c = ground arith

destroy_lem :
    (p : PyPtr) (s : Interp)
    → let t = destroy p s in
      (t.taken ≡ s.taken) × (t.released ≡ s.released + held_by_pointer p) × (t.error ≡ s.error)
unfolding destroy
destroy_lem p s = ground arith

use_all-IsOwed : (uses : List Use) (c : Scope) → IsOwed c (use_all uses c)
unfolding use_all
use_all-IsOwed [] c = (refl, refl)
use_all-IsOwed (u ∷ uses) c =
    ground (arith, use_pointer-IsOwed u c, use_all-IsOwed uses (use_pointer u c))

-- A scope gives back every reference that its pointer begins with or is assigned, but those that it
-- hands out by `detach`, and those that an assignment overwrites.
pub scope-released :
    (object : Option ℕ) (uses : List Use) (s : Interp)
    → let d = scope object uses s in
      (d.interp.taken + (s.released + flag (is_some object))
        ≡ s.taken + (d.interp.released + (d.handed_out + d.overwritten)))
      × (d.interp.error ≡ s.error)
unfolding scope
scope-released object uses s =
    let c : Scope = record {
      pointer = py_ptr object;
      interp = s;
      handed_out = 0;
      overwritten = 0;
    } in
    let d = use_all uses c in ground (arith, use_all-IsOwed uses c, destroy_lem d.pointer d.interp)

-- Assigned to only while it is null.
abbrev pub is_careful : Bool → List Use → Bool
is_careful null [] = true
is_careful null (assigned object ∷ uses) = null && is_careful (not (is_some object)) uses
is_careful null (detached ∷ uses) = is_careful true uses

use_all-overwritten :
    (uses : List Use) (c : Scope)
    → is_careful (not (is_some c.pointer.object)) uses ≡ true
    → (use_all uses c).overwritten ≡ c.overwritten
unfolding use_all use_pointer
use_all-overwritten [] c careful = refl
use_all-overwritten (assigned object ∷ uses) c careful =
    ground (arith, careful, use_all-overwritten uses (use_pointer (assigned object) c))
use_all-overwritten (detached ∷ uses) c careful =
    use_all-overwritten uses (use_pointer detached c) careful

-- A pointer that is assigned to only while it is null overwrites nothing: a scope then gives back every
-- reference but those that it hands out.
pub scope-careful :
    (object : Option ℕ) (uses : List Use) (s : Interp)
    → is_careful (not (is_some object)) uses ≡ true
    → let d = scope object uses s in
      d.interp.taken + (s.released + flag (is_some object))
      ≡ s.taken + (d.interp.released + d.handed_out)
unfolding scope py_ptr
scope-careful object uses s careful =
    let c : Scope = record {
      pointer = py_ptr object;
      interp = s;
      handed_out = 0;
      overwritten = 0;
    } in
    let nothing = use_all-overwritten uses c careful in
    omega (arith, (scope-released object uses s).0, nothing)
