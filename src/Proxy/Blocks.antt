-- ===== src/Proxy/Blocks.antt =====
-- The blocks of the rendered text: what stands inside and outside of its braces.
use dbmanager.Base.{
  ℕ, zero, suc, String, Bool, true, false, Option, none, some, ◌≡◌, refl, sym, ◌∙◌, ap, ◌==◌, arith,
  if◌then◌else◌,
}
use Prim.Native.Char.{Char, code}
use dbmanager.Base.Text.{add}
use dbmanager.Proxy.{all_chars}

-- The depth after a character; `none` for a brace that closes nothing.
abbrev pub next_depth : ℕ → ℕ → Option ℕ
next_depth d k =
    if k == b'{'
    then some (suc d)
    else if k == b'}'
    then elim d [ zero ↦ none | suc e ↦ some e ]
    else some d

-- A character outside of the braces.
abbrev pub is_outer : ℕ → ℕ → Bool
is_outer d k = elim d [ suc _ ↦ false | zero ↦ if k == b'{' then false else true ]

abbrev pub before : Bool → Char → String → String
before b c o = if b then String.◌∷◌ c o else o

abbrev pub keep : Bool → Char → Option (ℕ × String) → Option (ℕ × String)
keep b c none = none
keep b c (some (e, o)) = some (e, before b c o)

abbrev pub scan_next : Bool → Char → Option ℕ → (ℕ → Option (ℕ × String)) → Option (ℕ × String)
scan_next b c none rest = none
scan_next b c (some e) rest = keep b c (rest e)

-- The depth after a text that starts at the given one, and the characters outside of all braces.
unfoldable pub scan : ℕ → String → Option (ℕ × String)
scan d String.[] = some (d, String.[])
scan d (String.◌∷◌ c s) = scan_next (is_outer d (code c)) c (next_depth d (code c)) (λ e. scan e s)

abbrev pub Scans : ℕ → String → ℕ → String → Type 0
Scans d s e o = scan d s ≡ some (e, o)

-- What a text adds to the outer characters `o` of the text before it.
abbrev extend : String → Option (ℕ × String) → Option (ℕ × String)
extend o none = none
extend o (some (f, p)) = some (f, add o p)

-- A scan that goes on after one has ended.
abbrev resume : Option (ℕ × String) → String → Option (ℕ × String)
resume none t = none
resume (some (e, o)) t = extend o (scan e t)

resumed_at_once : (r : Option (ℕ × String)) → r ≡ extend "" r
unfolding add
resumed_at_once none = refl
resumed_at_once (some r) = refl

add-before : (b : Bool) (c : Char) (o p : String) → add (before b c o) p ≡ before b c (add o p)
unfolding add
add-before true c o p = refl
add-before false c o p = refl

extend-before :
    (b : Bool) (c : Char) (o : String) (q : Option (ℕ × String))
    → extend (before b c o) q ≡ keep b c (extend o q)
extend-before b c o none = refl
extend-before b c o (some (f, p)) = ap (λ x. some (f, x)) (add-before b c o p)

resume-keep :
    (b : Bool) (c : Char) (r : Option (ℕ × String)) (t : String)
    → resume (keep b c r) t ≡ keep b c (resume r t)
resume-keep b c none t = refl
resume-keep b c (some (e, o)) t = extend-before b c o (scan e t)

resume-scan_next :
    (b : Bool) (c : Char) (n : Option ℕ) (s t : String)
    → ((e : ℕ) → scan e (add s t) ≡ resume (scan e s) t)
    → scan_next b c n (λ e. scan e (add s t)) ≡ resume (scan_next b c n (λ e. scan e s)) t
resume-scan_next b c none s t ih = refl
resume-scan_next b c (some e) s t ih = ap (keep b c) (ih e) ∙ sym (resume-keep b c (scan e s) t)

scan-add : (d : ℕ) (s t : String) → scan d (add s t) ≡ resume (scan d s) t
unfolding scan add
scan-add d String.[] t = resumed_at_once (scan d t)
scan-add d (String.◌∷◌ c s) t =
    resume-scan_next (is_outer d (code c)) c (next_depth d (code c)) s t (λ e. scan-add e s t)

pub Scans-add :
    (d e f : ℕ) (s t o p : String) → Scans d s e o → Scans e t f p → Scans d (add s t) f (add o p)
Scans-add d e f s t o p h k = scan-add d s t ∙ rw (h, resume, k, extend)

-- Characters other than braces.
abbrev pub is_plain : ℕ → Bool
is_plain k = if k == b'{' then false else if k == b'}' then false else true

pub scan-inside : (d : ℕ) (s : String) → all_chars is_plain s ≡ true → Scans (suc d) s (suc d) ""
unfolding scan all_chars
scan-inside d String.[] h = refl
scan-inside d (String.◌∷◌ c s) h = ground (arith, scan-inside d s)

pub scan-outside : (s : String) → all_chars is_plain s ≡ true → Scans 0 s 0 s
unfolding scan all_chars
scan-outside String.[] h = refl
scan-outside (String.◌∷◌ c s) h = ground (arith, scan-outside s)
