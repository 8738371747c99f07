-- ===== src/Base/Text.antt =====
-- Python's `len`, slices and `in` on `str`, by recursion on the characters.
use Prim.Native.Nat.{ℕ, zero, suc}
use Prim.Native.Char.{Char, code}
use Prim.Native.String.{String, [], ◌∷◌}
use mathlib.Core.Bool.{Bool, true, false, ◌||◌, ◌&&◌}
use dbmanager.Base.Tests.{◌==◌, leb, Bool-cases, if◌then◌else◌}
use mathlib.Core.Path.{◌≡◌, refl}
use mathlib.Core.Logic.{inl, inr}
use native.Mathlib.Omega.{arith}
use text.Mathlib.TextEquality.{eq_iff}
use text.Mathlib.TextPositions.{eq_refl}
use text.Mathlib.Text.{◌==◌ as str_eq}

-- `len(s)`, in characters
abbrev pub len : String → ℕ
len [] = 0
len (c ∷ s) = suc (len s)

-- `s[:n]`, followed by the text `e`
abbrev pub cut : ℕ → String → String → String
cut zero s e = e
cut (suc n) [] e = e
cut (suc n) (c ∷ s) e = c ∷ cut n s e

same_char : Char → Char → Bool
same_char c d = code c == code d

unfoldable pub begins_with : String → String → Bool
unfolding same_char
begins_with [] s = true
begins_with (c ∷ p) [] = false
begins_with (c ∷ p) (d ∷ s) = same_char c d && begins_with p s

-- `p in s`
unfoldable pub contains : String → String → Bool
unfolding begins_with
contains p [] = begins_with p []
contains p (c ∷ s) = begins_with p (c ∷ s) || contains p s

-- `s.endswith(e)`
unfoldable pub ends_with : String → String → Bool
ends_with e [] = str_eq e []
ends_with e (c ∷ s) = str_eq e (c ∷ s) || ends_with e s

last_part : String → String → String
last_part part [] = part
last_part part (c ∷ s) = last_part (if code c == b'/' then s else part) s

-- `os.path.basename(s)`, `s.split("/")[-1]`
unfoldable pub basename : String → String
unfolding last_part
basename s = last_part s s

-- `s + t`
unfoldable pub add : String → String → String
add [] t = t
add (c ∷ s) t = c ∷ add s t

-- `str.isspace`
abbrev pub is_space : ℕ → Bool
is_space n =
    leb 9 n && leb n 13
    || leb 28 n && leb n 32
    || n == 133
    || n == 160
    || n == 5760
    || leb 8192 n && leb n 8202
    || n == 8232
    || n == 8233
    || n == 8239
    || n == 8287
    || n == 12288

unfoldable pub lstrip : String → String
lstrip [] = []
lstrip (c ∷ s) = let rest = lstrip s in if is_space (code c) then rest else c ∷ s

unfoldable pub rstrip : String → String
rstrip [] = []
rstrip (c ∷ s) =
    let rest = rstrip s in
    elim rest [ [] ↦ if is_space (code c) then [] else c ∷ [] | d ∷ r ↦ c ∷ d ∷ r ]

-- `s.strip()`
unfoldable pub strip : String → String
unfolding lstrip rstrip
strip s = rstrip (lstrip s)

-- A text ends with every text that one of its ends ends with.
pub ends_with_trans :
    (d e s : String) → ends_with d e ≡ true → ends_with e s ≡ true → ends_with d s ≡ true
unfolding ends_with
ends_with_trans d e [] h k = rw ((eq_iff e []).0 k) at h
ends_with_trans d e (c ∷ s) h k = elim (Bool-cases (str_eq e (c ∷ s))) [
  | inl same ↦ rw ((eq_iff e (c ∷ s)).0 same) at h
  | inr other ↦ ground (arith, ends_with_trans d e s h)
]

pub ends_with_self : (e : String) → ends_with e e ≡ true
unfolding ends_with
ends_with_self [] = eq_refl []
ends_with_self (c ∷ s) = ground (arith, eq_refl (c ∷ s))

pub ends_with-add : (s e : String) → ends_with e (add s e) ≡ true
unfolding add ends_with
ends_with-add [] e = ends_with_self e
ends_with-add (c ∷ s) e = ground (arith, ends_with-add s e)

pub begins_with_self : (s : String) → begins_with s s ≡ true
unfolding begins_with
begins_with_self [] = refl
begins_with_self (c ∷ s) = ground (arith, begins_with_self s)
