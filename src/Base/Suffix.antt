-- ===== src/Base/Suffix.antt =====
-- `os.path.splitext` and `Path.suffix` on names that do not begin with their only dots.
use Prim.Native.Char.{Char, code}
use Prim.Native.String.{String, [], ◌∷◌}
use text.Mathlib.Text.{◌==◌ as str_eq}
use text.Mathlib.TextEquality.{eq_iff}
use mathlib.Core.Path.{◌≡◌, refl, ap}
use mathlib.Core.Logic.{inl, inr}
use mathlib.Core.Bool.{Bool, true, false}
use mathlib.Core.Option.{Option, none, some}
use native.Mathlib.Omega.{arith}
use dbmanager.Base.Tests.{◌==◌, if◌then◌else◌, Bool-cases, or_else}
use dbmanager.Base.Text.{add, ends_with, contains, begins_with_self}

is_dot : Char → Bool
is_dot c = code c == b'.'

-- The text from the last dot on.
unfoldable pub find_suffix : String → Option String
unfolding is_dot
find_suffix [] = none
find_suffix (c ∷ s) = elim (find_suffix s) [
  | some e ↦ some e
  | none ↦ if is_dot c then some (c ∷ s) else none
]

-- `Path(s).suffix`, `os.path.splitext(s)[1]`
unfoldable pub suffix : String → String
suffix s = or_else (find_suffix s) ""

starts_suffix : Char → Option String → Bool
starts_suffix c (some _) = false
starts_suffix c none = is_dot c

-- `Path(s).with_suffix("")`, `os.path.splitext(s)[0]`
unfoldable pub stem : String → String
unfolding starts_suffix is_dot
stem [] = []
stem (c ∷ s) = let rest = c ∷ stem s in if starts_suffix c (find_suffix s) then [] else rest

pub find_suffix-add : (s e : String) → find_suffix e ≡ some e → find_suffix (add s e) ≡ some e
unfolding add find_suffix
find_suffix-add [] e h = h
find_suffix-add (c ∷ s) e h = ground (arith, find_suffix-add s e h)

pub stem-add : (s e : String) → find_suffix e ≡ some e → stem e ≡ [] → stem (add s e) ≡ s
unfolding add stem
stem-add [] e h k = k
stem-add (c ∷ s) e h k = rw (find_suffix-add s e h) (ap (◌∷◌ c) (stem-add s e h k))

find_suffix-cons :
    (e : String) (c : Char) (s : String) → find_suffix s ≡ some e → find_suffix (c ∷ s) ≡ some e
unfolding find_suffix
find_suffix-cons e c s k = ground arith

-- A name that ends with a suffix has that suffix.
pub find_suffix-ends_with :
    (e s : String) → find_suffix e ≡ some e → ends_with e s ≡ true → find_suffix s ≡ some e
unfolding ends_with
find_suffix-ends_with e [] h k = rw (← (eq_iff e []).0 k) h
find_suffix-ends_with e (c ∷ s) h k = elim (Bool-cases (str_eq e (c ∷ s))) [
  | inl same ↦ rw (← (eq_iff e (c ∷ s)).0 same) h
  | inr other ↦ find_suffix-cons e c s (find_suffix-ends_with e s h (ground arith))
]

-- A name that was given another suffix does not end with this one.
pub ends_with-add_other :
    (d e s : String)
    → find_suffix d ≡ some d
    → find_suffix e ≡ some e
    → str_eq d e ≡ false
    → ends_with d (add s e) ≡ false
ends_with-add_other d e s hd he ne = elim (Bool-cases (ends_with d (add s e))) [
  | inl yes_ends ↦ absurd (
      ground
        (arith, find_suffix-ends_with d (add s e) hd yes_ends, find_suffix-add s e he, eq_iff d e))
  | inr other ↦ other
]

pub contains-add : (s e : String) → contains e (add s e) ≡ true
unfolding add contains
contains-add [] [] = refl
contains-add [] (c ∷ e) = ground (arith, begins_with_self (c ∷ e))
contains-add (c ∷ s) e = ground (arith, contains-add s e)
