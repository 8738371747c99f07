-- ===== src/Protect/Names.antt =====
-- The names of a backup's files: what is added to them, and that they differ.
use dbmanager.Base.{
  ℕ, ◌+◌, ◌<◌, String, ◌≡◌, refl, ap, false, Bool-cases, inl, inr, ◌⊎◌, some, arith, str_eq, eq_iff,
}
use dbmanager.Base.Text.{add, len}
use dbmanager.Base.Suffix.{stem, find_suffix, find_suffix-add}
use dbmanager.Protect.{Tools, codec_suffix}

len-add : (s e : String) → len (add s e) ≡ len s + len e
unfolding add
len-add String.[] e = omega arith
len-add (String.◌∷◌ c s) e = omega (arith, len-add s e)

-- A name with something added is another name.
pub add-ne :
    (s e : String) → 0 < len e → (str_eq (add s e) s ≡ false) × (str_eq s (add s e) ≡ false)
add-ne s e h = (
  elim (Bool-cases (str_eq (add s e) s)) [
    | inl same ↦ absurd (omega (arith, ap len ((eq_iff (add s e) s).0 same), len-add s e))
    | inr other ↦ other
  ],
  elim (Bool-cases (str_eq s (add s e))) [
    | inl same ↦ absurd (omega (arith, ap len ((eq_iff s (add s e)).0 same), len-add s e))
    | inr other ↦ other
  ],
)

-- So are names with different suffixes.
pub add-ne_suffix :
    (r s d e : String)
    → find_suffix d ≡ some d
    → find_suffix e ≡ some e
    → str_eq d e ≡ false
    → str_eq (add r d) (add s e) ≡ false
add-ne_suffix r s d e hd he ne = elim (Bool-cases (str_eq (add r d) (add s e))) [
  | inl same ↦ absurd (
      ground (
        arith,
        ap find_suffix ((eq_iff (add r d) (add s e)).0 same),
        find_suffix-add r d hd,
        find_suffix-add s e he,
        eq_iff d e,
      ))
  | inr other ↦ other
]

-- A suffix that the program adds to the name of a backup.
pub record IsAdded (e : String) : Type 0 where
  pub suf : find_suffix e ≡ some e
  pub bare : stem e ≡ ""
  pub long : 0 < len e
  pub not_sum : str_eq e ".sha256" ≡ false
  pub sum_not : str_eq ".sha256" e ≡ false

pub gz-IsAdded : IsAdded ".gz"
unfolding find_suffix stem
gz-IsAdded = record { suf = refl; bare = refl; long = omega arith; not_sum = refl; sum_not = refl }

pub zst-IsAdded : IsAdded ".zst"
unfolding find_suffix stem
zst-IsAdded = record { suf = refl; bare = refl; long = omega arith; not_sum = refl; sum_not = refl }

pub lz4-IsAdded : IsAdded ".lz4"
unfolding find_suffix stem
lz4-IsAdded = record { suf = refl; bare = refl; long = omega arith; not_sum = refl; sum_not = refl }

pub enc-IsAdded : IsAdded ".enc"
unfolding find_suffix stem
enc-IsAdded = record { suf = refl; bare = refl; long = omega arith; not_sum = refl; sum_not = refl }

pub sha256-suffix : find_suffix ".sha256" ≡ some ".sha256"
unfolding find_suffix
sha256-suffix = refl

-- The algorithm and the suffix belong together.
abbrev pub IsCodec : String → String → Type 0
IsCodec alg e =
    (alg ≡ "gzip") × (e ≡ ".gz") ⊎ (alg ≡ "zstd") × (e ≡ ".zst") ⊎ (alg ≡ "lz4") × (e ≡ ".lz4")

pub codec_suffix-IsCodec :
    (t : Tools) (now : ℕ) (alg e : String) → codec_suffix t now alg ≡ some e → IsCodec alg e
unfolding codec_suffix
codec_suffix-IsCodec t now alg e h = elim (Bool-cases (str_eq alg "gzip")) [
  | inl g ↦ inl ((eq_iff alg "gzip").0 g, ground arith)
  | inr g ↦ inr (elim (Bool-cases (str_eq alg "zstd")) [
    | inl z ↦ inl ((eq_iff alg "zstd").0 z, ground arith)
    | inr z ↦ inr (elim (Bool-cases (str_eq alg "lz4")) [
      | inl l ↦ ((eq_iff alg "lz4").0 l, ground arith)
      | inr l ↦ absurd (ground arith)
    ])
  ])
]

pub IsCodec-IsAdded : (alg e : String) → IsCodec alg e → IsAdded e
IsCodec-IsAdded alg e (inl (a, s)) = rw s gz-IsAdded
IsCodec-IsAdded alg e (inr (inl (a, s))) = rw s zst-IsAdded
IsCodec-IsAdded alg e (inr (inr (a, s))) = rw s lz4-IsAdded
