-- ===== src/Base/Texts.antt =====
-- Identifiers and texts: equality as a test, membership, and lists without duplicates.
use Prim.Native.String.{String}
use Prim.Native.String.{◌++◌ as append}
use mathlib.Core.Path.{◌≡◌, refl}
use mathlib.Core.Bool.{Bool, true, false, ◌&&◌, ◌||◌, not}
use mathlib.Core.List.{List, [], ◌∷◌, ◌++◌}
use mathlib.Core.Option.{Option, none, some}
use native.Mathlib.Omega.{arith}
pub use text.Mathlib.Text.{◌==◌}
pub use text.Mathlib.TextEquality.{eq_iff}

abbrev pub contains : List String → String → Bool
contains [] a = false
contains (x ∷ xs) a = x == a || contains xs a

-- `new Set(ids).size === ids.length`.
abbrev pub distinct : List String → Bool
distinct [] = true
distinct (x ∷ xs) = not (contains xs x) && distinct xs

abbrev pub same_option : Option String → Option String → Bool
same_option none none = true
same_option (some a) (some b) = a == b
same_option _ _ = false

pub eq_self : (a : String) → (a == a) ≡ true
eq_self a = (eq_iff a a).1 refl

pub contains-append :
    (xs ys : List String) (a : String) → contains (xs ++ ys) a ≡ (contains xs a || contains ys a)
contains-append [] ys a = refl
contains-append (x ∷ xs) ys a = ground (arith, contains-append xs ys a)

pub distinct-append_fresh :
    (xs : List String) (a : String)
    → contains xs a ≡ false
    → distinct xs ≡ true
    → distinct (xs ++ a ∷ []) ≡ true
distinct-append_fresh [] a h d = refl
distinct-append_fresh (x ∷ xs) a h d = ground (
  arith,
  distinct-append_fresh xs a,
  contains-append xs (a ∷ []) x,
  eq_iff x a,
  eq_iff a x,
  (eq_iff x a).0,
)

-- The parts of a template literal, one after the other.
abbrev pub concat : List String → String
concat [] = ""
concat (x ∷ xs) = append x (concat xs)

-- `parts.join(separator)`.
abbrev pub join : String → List String → String
join separator [] = ""
join separator (x ∷ []) = x
join separator (x ∷ y ∷ xs) = append x (append separator (join separator (y ∷ xs)))
