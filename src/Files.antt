-- ===== src/Files.antt =====
-- A directory of backup files as the program uses it: read, write, delete and rename by name. A file
-- is bytes, or the words of a text line, which is how a checksum file is written and read.
use dbmanager.Base.{
  ℕ, String, ◌≡◌, refl, Bool, inl, inr, Option, none, some, List, [], ◌∷◌, not, str_eq, eq_iff,
  arith, keep, any, Option-cases, if◌then◌else◌,
}
use dbmanager.Storage.{Bytes}

pub data Content : Type 0 where
  binary : Bytes → Content
  words : List String → Content

pub record LocalFile : Type 0 where
  pub name : String
  pub mtime : ℕ
  pub size : ℕ
  pub content : Content

abbrev pub Dir : Type 0
Dir = List LocalFile

unfoldable pub has_file : String → Dir → Bool
has_file name dir = any (λ f. str_eq f.name name) dir

unfoldable pub find_file : String → Dir → Option LocalFile
find_file n [] = none
find_file n (f ∷ dir) = let rest = find_file n dir in if str_eq f.name n then some f else rest

unfoldable pub read : String → Dir → Option Content
read n [] = none
read n (f ∷ dir) = let rest = read n dir in if str_eq f.name n then some f.content else rest

-- `Path(name).unlink()` for a file of the directory
unfoldable pub unlink : String → Dir → Dir
unlink name dir = keep (λ f. not (str_eq f.name name)) dir

unfoldable pub put_file : LocalFile → Dir → Dir
unfolding unlink
put_file f dir = f ∷ unlink f.name dir

-- `os.rename(old, new)`: `none` is the exception for a missing file.
unfoldable pub rename : String → String → Dir → Option Dir
unfolding find_file put_file
rename old new dir = elim (find_file old dir) [
  | none ↦ none
  | some f ↦ some (put_file (record f { name = new }) (unlink old dir))
]

pub read-unlink :
    (n m : String) (dir : Dir) → read n (unlink m dir) ≡ (if str_eq m n then none else read n dir)
unfolding read unlink
read-unlink n m [] = ground arith
read-unlink n m (f ∷ dir) =
    ground (arith, read-unlink n m dir, eq_iff f.name m, eq_iff f.name n, eq_iff m n)

pub read-put_file :
    (n : String) (f : LocalFile) (dir : Dir)
    → read n (put_file f dir) ≡ (if str_eq f.name n then some f.content else read n dir)
unfolding put_file read
read-put_file n f dir = ground (arith, read-unlink n f.name dir)

pub read-eq-find_file :
    (n : String) (dir : Dir)
    → read n dir ≡ elim (find_file n dir) [ none ↦ none | some f ↦ some f.content ]
unfolding read find_file
read-eq-find_file n [] = refl
read-eq-find_file n (f ∷ dir) = ground (arith, read-eq-find_file n dir)

-- What a rename of a file that is there leaves.
pub rename-read :
    (old new : String) (c : Content) (dir : Dir)
    → read old dir ≡ some c
    → (d : Dir) × (rename old new dir ≡ some d)
      × ((n : String)
          → read n d ≡ (if str_eq new n then some c else if str_eq old n then none else read n dir))
unfolding rename
rename-read old new c dir h = elim (Option-cases (find_file old dir)) [
  | inl e ↦ absurd (ground (arith, read-eq-find_file old dir))
  | inr (f, e) ↦ (
    put_file (record f { name = new }) (unlink old dir),
    ground arith,
    λ n. ground (
      arith,
      read-eq-find_file old dir,
      read-put_file n (record f { name = new }) (unlink old dir),
      read-unlink n old dir,
    ),
  )
]
