-- ===== src/Backups/Retention.antt =====
-- What the retention of local backups leaves, file by file.
use dbmanager.Base.{
  ℕ, ◌≤◌, String, ◌≡◌, Bool, true, false, Bool-cases, inl, inr, ap, List, ◌++◌, map, All-append,
  All-drop, [], ◌∷◌, ◌&&◌, ◌||◌, not, str_eq, eq_iff, arith, any, keep, drop, take, All,
  if◌then◌else◌,
}
use dbmanager.Base.Text.{ends_with, ends_with-add}
use dbmanager.Base.Sort.{sort-IsSorted, All-sort, drop-le-take}
use dbmanager.Files.{LocalFile, has_file, unlink}
use dbmanager.Storage.{Object}
use dbmanager.Backups.{
  BackupPath, file, key, Backup, sha256, delete_path, delete_backup, delete_backups, patterns,
  globbed, local_backup, local_backups, s3_backup, s3_backups, list_backups, enforce_retention,
}

-- The path is the local file `n`.
unfoldable pub path_is : String → BackupPath → Bool
path_is n (key k) = false
path_is n (file m) = str_eq m n

has_file-unlink :
    (n m : String) (dir : List LocalFile)
    → has_file n (unlink m dir) ≡ (if str_eq m n then false else has_file n dir)
unfolding unlink has_file
has_file-unlink n m [] = ground arith
has_file-unlink n m (f ∷ dir) =
    ground (arith, has_file-unlink n m dir, eq_iff f.name m, eq_iff f.name n, eq_iff m n)

-- A name that is no checksum's.
abbrev pub IsBackupName : String → Type 0
IsBackupName n = ends_with ".sha256" n ≡ false

sha256-ne : (n m : String) → IsBackupName n → str_eq (sha256 m) n ≡ false
sha256-ne n m h = elim (Bool-cases (str_eq (sha256 m) n)) [
  | inl same ↦ absurd (
      ground
        (arith, ap (ends_with ".sha256") ((eq_iff (sha256 m) n).0 same), ends_with-add m ".sha256"))
  | inr other ↦ other
]

-- A listed backup has the name of its file.
abbrev pub IsNamed : Backup → Type 0
IsNamed b = (n : String) → path_is n b.path ≡ true → b.filename ≡ n

module _ (n : String) (plain : IsBackupName n) where
  has_file-delete_path :
      (p : BackupPath) (dir : List LocalFile)
      → has_file n (delete_path p dir) ≡ (has_file n dir && not (path_is n p))
  unfolding delete_path path_is
  has_file-delete_path (key k) dir = ground arith
  has_file-delete_path (file m) dir = ground (
    arith,
    has_file-unlink n (sha256 m) (unlink m dir),
    has_file-unlink n m dir,
    sha256-ne n m plain,
    eq_iff m n,
  )

  has_file-delete_backup :
      (starred : String → Bool) (b : Backup) (dir : List LocalFile)
      → IsNamed b
      → has_file n (delete_backup starred b dir)
        ≡ (has_file n dir && (starred n || not (path_is n b.path)))
  unfolding delete_backup
  has_file-delete_backup starred b dir h = ground (arith, has_file-delete_path b.path dir, h n)

  has_file-delete_backups :
      (starred : String → Bool) (bs : List Backup) (dir : List LocalFile)
      → All IsNamed bs
      → has_file n (delete_backups starred bs dir)
        ≡ (has_file n dir && (starred n || not (any (λ b. path_is n b.path) bs)))
  unfolding delete_backups
  has_file-delete_backups starred [] dir h = ground arith
  has_file-delete_backups starred (b ∷ bs) dir h = ground (
    arith,
    has_file-delete_backups starred bs (delete_backup starred b dir) h.1,
    has_file-delete_backup starred b dir h.0,
  )

local_map-IsNamed : (dir fs : List LocalFile) → All IsNamed (map (local_backup dir) fs)
unfolding local_backup path_is
local_map-IsNamed dir [] = tt
local_map-IsNamed dir (f ∷ fs) = (λ n h. (eq_iff f.name n).0 h, local_map-IsNamed dir fs)

local_backups-IsNamed :
    (ps : List String) (dir : List LocalFile) → All IsNamed (local_backups ps dir)
unfolding local_backups
local_backups-IsNamed [] dir = tt
local_backups-IsNamed (p ∷ ps) dir =
    All-append IsNamed (map (local_backup dir) (globbed p dir)) (local_backups ps dir)
      (local_map-IsNamed dir (globbed p dir)) (local_backups-IsNamed ps dir)

s3_map-IsNamed : (os all : List Object) → All IsNamed (map (s3_backup all) os)
unfolding s3_backup path_is
s3_map-IsNamed [] all = tt
s3_map-IsNamed (o ∷ os) all = (λ n h. cc, s3_map-IsNamed os all)

list_backups-IsNamed : (dir : List LocalFile) (os : List Object) → All IsNamed (list_backups dir os)
unfolding list_backups s3_backups
list_backups-IsNamed dir os =
    All-sort (λ b. b.date) IsNamed (local_backups patterns dir ++ s3_backups os)
      (All-append IsNamed (local_backups patterns dir) (s3_backups os)
        (local_backups-IsNamed patterns dir)
        (s3_map-IsNamed (keep (λ o. not (ends_with ".sha256" o.key)) os) os))

-- Which files a retention leaves: a file that is no checksum is there afterwards exactly when it was
-- there before and is starred or not among the listed backups after the first `keep_last`; and none
-- of those is newer than one of the first `keep_last`.
pub enforce_retention-leaves :
    (starred : String → Bool) (keep_last : ℕ) (os : List Object) (dir : List LocalFile) (n : String)
    → ends_with ".sha256" n ≡ false
    → (has_file n (enforce_retention starred keep_last os dir) ≡ (
        has_file n dir
        && (starred n || not (any (λ b. path_is n b.path) (drop keep_last (list_backups dir os))))))
      × All
          (λ x. All (λ y. y.date ≤ x.date) (drop keep_last (list_backups dir os)))
          (take keep_last (list_backups dir os))
unfolding enforce_retention list_backups
enforce_retention-leaves starred keep_last os dir n plain =
    let listed : List Backup = list_backups dir os in
    (
      has_file-delete_backups n plain starred (drop keep_last listed) dir
          (All-drop IsNamed keep_last listed (list_backups-IsNamed dir os)),
      drop-le-take (λ b. b.date) keep_last listed
          (sort-IsSorted (λ b. b.date) (local_backups patterns dir ++ s3_backups os)),
    )
