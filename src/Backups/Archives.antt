-- ===== src/Backups/Archives.antt =====
-- The archives `*.tar.gz` of MongoDB match two of the glob patterns and are listed twice.
use dbmanager.Base.{
  ◌≤◌, String, ◌≡◌, refl, Bool, true, false, Bool-cases, inl, inr, List, [], ◌∷◌, ◌++◌, map, eq_iff,
  arith, count, count-append, count-le-drop, any_of_count, drop,
}
use dbmanager.Base.Text.{ends_with, ends_with_trans}
use dbmanager.Base.Sort.{count-sort}
use dbmanager.Files.{LocalFile, has_file}
use dbmanager.Storage.{Object}
use dbmanager.Backups.{
  Backup, patterns, globbed, local_backup, local_backups, s3_backups, list_backups,
  enforce_retention,
}
use dbmanager.Backups.Retention.{path_is, enforce_retention-leaves}

abbrev lists : String → Backup → Bool
lists n b = path_is n b.path

-- A pattern that the name matches lists the file.
count-globbed :
    (n p : String) (dir all : List LocalFile)
    → has_file n dir ≡ true
    → ends_with p n ≡ true
    → ends_with ".sha256" n ≡ false
    → 1 ≤ count (lists n) (map (local_backup all) (globbed p dir))
unfolding globbed has_file local_backup path_is
count-globbed n p [] all h m plain = cc
count-globbed n p (f ∷ dir) all h m plain =
    ground (arith, count-globbed n p dir all, eq_iff f.name n)

count-local_backups :
    (n : String) (ps : List String) (dir : List LocalFile)
    → has_file n dir ≡ true
    → ends_with ".sha256" n ≡ false
    → count (λ p. ends_with p n) ps ≤ count (lists n) (local_backups ps dir)
unfolding local_backups
count-local_backups n [] dir h plain = omega arith
count-local_backups n (p ∷ ps) dir h plain = ground (
  arith,
  count-globbed n p dir dir h,
  count-local_backups n ps dir h plain,
  count-append {0} (lists n) (map (local_backup dir) (globbed p dir)) (local_backups ps dir),
)

gz_ends_tar_gz : ends_with ".gz" ".tar.gz" ≡ true
unfolding ends_with
gz_ends_tar_gz = refl

two_patterns : (n : String) → ends_with ".tar.gz" n ≡ true → 2 ≤ count (λ p. ends_with p n) patterns
two_patterns n h = ground (arith, ends_with_trans ".gz" ".tar.gz" n gz_ends_tar_gz h)

-- Every archive is listed at least twice.
archive_listed_twice :
    (n : String) (dir : List LocalFile) (os : List Object)
    → has_file n dir ≡ true
    → ends_with ".tar.gz" n ≡ true
    → ends_with ".sha256" n ≡ false
    → 2 ≤ count (lists n) (list_backups dir os)
unfolding list_backups
archive_listed_twice n dir os h m plain = omega (
  arith,
  two_patterns n m,
  count-local_backups n patterns dir h plain,
  count-append {0} (lists n) (local_backups patterns dir) (s3_backups os),
  count-sort (λ (b : Backup). b.date) (lists n) (local_backups patterns dir ++ s3_backups os),
)

-- With a local retention of one, no unstarred archive `*.tar.gz` is left, not even the newest
-- backup: whatever else the directory and the bucket hold.
pub retention_of_one-deletes_archive :
    (starred : String → Bool) (os : List Object) (dir : List LocalFile) (n : String)
    → ends_with ".tar.gz" n ≡ true
    → ends_with ".sha256" n ≡ false
    → starred n ≡ false
    → has_file n (enforce_retention starred 1 os dir) ≡ false
retention_of_one-deletes_archive starred os dir n m plain unstarred =
    elim (Bool-cases (has_file n dir)) [
      | inl there ↦
          let listed = any_of_count (lists n) (drop 1 (list_backups dir os)) (
            omega (
              arith,
              archive_listed_twice n dir os there m plain,
              count-le-drop (lists n) 1 (list_backups dir os),
            )) in
          ground (arith, (enforce_retention-leaves starred 1 os dir n plain).0, listed)
      | inr absent ↦ ground (arith, (enforce_retention-leaves starred 1 os dir n plain).0)
    ]
