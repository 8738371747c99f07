-- ===== src/Endpoints/Transfers.antt =====
-- What the transfers of a synchronisation leave alone.
use dbmanager.Base.{
  ℕ, String, ◌≡◌, ap, ◌∙◌, Bool, true, false, some, List, [], ◌∷◌, All, arith, str_eq, eq_iff,
  Option-cases, Bool-cases, inl, inr, if◌then◌else◌, length,
}
use text.Mathlib.TextPositions.{eq_refl}
use dbmanager.Base.Text.{add}
use dbmanager.Storage.Targets.{Targets, IsTargets}
use dbmanager.Files.{read, read-put_file, binary}
use dbmanager.Protect.{read_bytes}
use dbmanager.Endpoints.Sync.{
  has_name, minus, Transfer, upload_file, upload_files, download_file, download_files,
}

tail : String → String
tail String.[] = String.[]
tail (String.◌∷◌ c s) = s

add-cancel : (p m n : String) → add p m ≡ add p n → m ≡ n
unfolding add tail
add-cancel String.[] m n e = e
add-cancel (String.◌∷◌ c p) m n e = add-cancel p m n (ap tail e)

-- A name that is not in the list has another key than one that is.
pub keys_differ :
    (p m n : String) (ns : List String)
    → has_name m ns ≡ false
    → has_name n ns ≡ true
    → str_eq (add p m) (add p n) ≡ false
keys_differ p m n ns out in_list = elim (Bool-cases (str_eq (add p m) (add p n))) [
  | inr e ↦ e
  | inl e ↦
      let same : m ≡ n = add-cancel p m n ((eq_iff (add p m) (add p n)).0 e) in
      let k : has_name m ns ≡ true = rw same in_list in absurd (ground arith)
]

-- The elements of a difference are not in what was taken off.
pub minus-out :
    (a b : List String) (m : String) → has_name m (minus a b) ≡ true → has_name m b ≡ false
minus-out [] b m h = absurd (ground arith)
minus-out (n ∷ a) b m h = ground (arith, minus-out a b m, eq_iff m n)

-- What holds of every name of a list.
pub All-of :
    {P : String → Type 0}
    → (ns : List String) → ((m : String) → has_name m ns ≡ true → P m)
    → All P ns
All-of [] h = tt
All-of (n ∷ ns) h =
    (h n (ground (arith, eq_refl n)), All-of ns (λ m k. h m (ground (arith, eq_refl n))))

pub All-if :
    (P : String → Type 0) (c : Bool) (ns : List String) → All P ns → All P (if c then ns else [])
All-if P true ns h = h
All-if P false ns h = tt

module _ (s : Targets) (lawful : IsTargets s) (i : ℕ) (prefix : String) where
  upload_file-other :
      (n : String) (x y : Transfer s) (j : ℕ) (k : String)
      → str_eq (add prefix n) k ≡ false
      → upload_file s i prefix n x ≡ some y
      → s.download j k y.world ≡ s.download j k x.world
  unfolding upload_file
  upload_file-other n x y j k h e = elim (Option-cases (read_bytes n x.dir)) [
    | inl g ↦ absurd (ground arith)
    | inr (b, g) ↦ elim (Option-cases (s.upload i b (add prefix n) x.world).0) [
      | inl f ↦ absurd (ground arith)
      | inr (done, f) ↦ ground (arith, lawful.upload-other i j b (add prefix n) k x.world)
    ]
  ]

  pub upload_files-other :
      (ns : List String) (x x' : Transfer s) (j : ℕ) (k : String)
      → All (λ m. str_eq (add prefix m) k ≡ false) ns
      → upload_files s i prefix ns x ≡ some x'
      → s.download j k x'.world ≡ s.download j k x.world
  unfolding upload_files
  upload_files-other [] x x' j k a e = ground arith
  upload_files-other (n ∷ ns) x x' j k (h, a) e = elim (Option-cases (upload_file s i prefix n x)) [
    | inl f ↦ absurd (ground arith)
    | inr (y, f) ↦ upload_files-other ns y x' j k a (ground arith) ∙ upload_file-other n x y j k h f
  ]

  upload_file-dir :
      (n : String) (x y : Transfer s) → upload_file s i prefix n x ≡ some y → y.dir ≡ x.dir
  unfolding upload_file
  upload_file-dir n x y e = elim (Option-cases (read_bytes n x.dir)) [
    | inl g ↦ absurd (ground arith)
    | inr (b, g) ↦ elim (Option-cases (s.upload i b (add prefix n) x.world).0) [
      | inl f ↦ absurd (ground arith)
      | inr (done, f) ↦ ground arith
    ]
  ]

  pub upload_files-dir :
      (ns : List String) (x x' : Transfer s)
      → upload_files s i prefix ns x ≡ some x'
      → x'.dir ≡ x.dir
  unfolding upload_files
  upload_files-dir [] x x' e = ground arith
  upload_files-dir (n ∷ ns) x x' e = elim (Option-cases (upload_file s i prefix n x)) [
    | inl f ↦ absurd (ground arith)
    | inr (y, f) ↦ upload_files-dir ns y x' (ground arith) ∙ upload_file-dir n x y f
  ]

  download_file-other :
      (now : ℕ) (n m : String) (x y : Transfer s)
      → str_eq n m ≡ false
      → download_file s i prefix now n x ≡ some y
      → read m y.dir ≡ read m x.dir
  unfolding download_file
  download_file-other now n m x y h e = elim (Option-cases (s.download i (add prefix n) x.world)) [
    | inl f ↦ absurd (ground arith)
    | inr (got, f) ↦ elim (Option-cases got) [
      | inl g ↦ ground arith
      | inr (b, g) ↦ ground (
        arith,
        read-put_file m (record { name = n; mtime = now; size = length b; content = binary b })
            x.dir,
      )
    ]
  ]

  pub download_files-other :
      (now : ℕ) (ns : List String) (m : String) (x x' : Transfer s)
      → All (λ n. str_eq n m ≡ false) ns
      → download_files s i prefix now ns x ≡ some x'
      → read m x'.dir ≡ read m x.dir
  unfolding download_files
  download_files-other now [] m x x' a e = ground arith
  download_files-other now (n ∷ ns) m x x' (h, a) e =
      elim (Option-cases (download_file s i prefix now n x)) [
        | inl f ↦ absurd (ground arith)
        | inr (y, f) ↦
            download_files-other now ns m y x' a (ground arith)
            ∙ download_file-other now n m x y h f
      ]

  download_file-world :
      (now : ℕ) (n : String) (x y : Transfer s)
      → download_file s i prefix now n x ≡ some y
      → y.world ≡ x.world
  unfolding download_file
  download_file-world now n x y e = elim (Option-cases (s.download i (add prefix n) x.world)) [
    | inl f ↦ absurd (ground arith)
    | inr (got, f) ↦ elim (Option-cases got) [ inl g ↦ ground arith | inr (b, g) ↦ ground arith ]
  ]

  pub download_files-world :
      (now : ℕ) (ns : List String) (x x' : Transfer s)
      → download_files s i prefix now ns x ≡ some x'
      → x'.world ≡ x.world
  unfolding download_files
  download_files-world now [] x x' e = ground arith
  download_files-world now (n ∷ ns) x x' e =
      elim (Option-cases (download_file s i prefix now n x)) [
        | inl f ↦ absurd (ground arith)
        | inr (y, f) ↦
            download_files-world now ns y x' (ground arith) ∙ download_file-world now n x y f
      ]
