-- ===== src/Proxy/Lines.antt =====
-- Texts without braces, and the scan of joined lines.
use dbmanager.Base.{
  ℕ, suc, String, true, false, List, [], ◌∷◌, ◌++◌, All, ◌≡◌, refl, arith, if◌then◌else◌,
}
use Prim.Native.Char.{Char, code}
use dbmanager.Base.Text.{add, rstrip, is_space}
use dbmanager.Proxy.{all_chars}
use dbmanager.Proxy.Caddyfile.{join}
use dbmanager.Proxy.Valid.{is_safe, Safe, all_chars_weaken}
use dbmanager.Proxy.Blocks.{scan, Scans, Scans-add, is_plain}

safe_is_plain : (k : ℕ) → is_safe k ≡ true → is_plain k ≡ true
unfolding is_safe
safe_is_plain k h = ground arith

abbrev pub Plain : String → Type 0
Plain s = all_chars is_plain s ≡ true

pub Safe-Plain : (s : String) → Safe s → Plain s
Safe-Plain s = all_chars_weaken is_safe is_plain s safe_is_plain

pub add-Plain : (s t : String) → Plain s → Plain t → Plain (add s t)
unfolding add all_chars
add-Plain String.[] t h k = k
add-Plain (String.◌∷◌ c s) t h k = ground (arith, add-Plain s t)

Plain-step :
    (c : Char) (r : String)
    → is_plain (code c) ≡ true
    → Plain r
    → Plain (elim r [
      | String.[] ↦ if is_space (code c) then String.[] else String.◌∷◌ c String.[]
      | String.◌∷◌ d q ↦ String.◌∷◌ c (String.◌∷◌ d q)
    ])
unfolding all_chars
Plain-step c String.[] h k =
    elim (is_space (code c)) as (λ b. Plain (if b then String.[] else String.◌∷◌ c String.[])) [
      | true ↦ refl
      | false ↦ ground arith
    ]
Plain-step c (String.◌∷◌ d q) h k = ground arith

pub rstrip-Plain : (s : String) → Plain s → Plain (rstrip s)
unfolding rstrip all_chars
rstrip-Plain String.[] h = refl
rstrip-Plain (String.◌∷◌ c s) h =
    Plain-step c (rstrip s) (ground arith) (rstrip-Plain s (ground arith))

-- Lines inside of a block.
pub join_line :
    (d e f : ℕ) (l m : String) (ms : List String) (o p : String)
    → Scans d l (suc e) o
    → Scans (suc e) (join (m ∷ ms)) f p
    → Scans d (join (l ∷ m ∷ ms)) f (add o p)
unfolding join scan add
join_line d e f l m ms o p h k =
    Scans-add d (suc e) f l (add "\n" (join (m ∷ ms))) o p h
      (Scans-add (suc e) (suc e) f "\n" (join (m ∷ ms)) "" p refl k)

pub join_before :
    (d e : ℕ) (l : String) (xs : List String) (o : String)
    → Scans d l (suc e) o
    → Scans (suc e) (join (xs ++ "}" ∷ [])) 0 ""
    → Scans d (join (l ∷ xs ++ "}" ∷ [])) 0 (add o "")
join_before d e l [] o h k = join_line d e 0 l "}" [] o "" h k
join_before d e l (x ∷ xs) o h k = join_line d e 0 l x (xs ++ "}" ∷ []) o "" h k

abbrev pub Inner : List String → Type 0
Inner = All (λ l. Scans 1 l 1 "")

pub join-Inner : (xs : List String) → Inner xs → Scans 1 (join (xs ++ "}" ∷ [])) 0 ""
unfolding join scan add
join-Inner [] h = refl
join-Inner (x ∷ xs) h = join_before 1 0 x xs "" h.0 (join-Inner xs h.1)
