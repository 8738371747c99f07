-- ===== src/Endpoints/Confined.antt =====
-- Where the deletion of a backup deletes files.
use dbmanager.Base.{
  ℕ, String, ◌≡◌, refl, sym, ap, ◌∙◌, true, false, Option, none, some, ◌⊎◌, inl, inr, arith,
  Option-cases, Bool-cases,
}
use mathlib.Core.Path.{subst}
use dbmanager.Base.Outcome.{Reply, ok, http}
use dbmanager.Users.{User}
use dbmanager.Storage.Targets.{Targets}
use dbmanager.Endpoints.{App, delete_local, delete_s3, delete_backup}
use dbmanager.Endpoints.Paths.{
  FilePath, directory, Disk, same_path, same_path-eq, is_under, with_sum, with_sum-under, System,
  resolve_local_backup, removed, unlink_path, unlink_backup,
}

unlink_path-eq :
    (sys : System) (p : FilePath) (disk d : Disk)
    → unlink_path sys p disk ≡ some d
    → d ≡ removed p disk
unfolding unlink_path
unlink_path-eq sys p disk d e = ground (arith, Option-cases (disk p))

unlink_path-directory :
    (sys : System) (p : FilePath) (disk : Disk)
    → disk p ≡ some directory
    → unlink_path sys p disk ≡ none
unfolding unlink_path
unlink_path-directory sys p disk e = ground arith

pub Reply-cases : {A : Type 0} (r : Reply A) → ((c : ℕ) × (r ≡ http c)) ⊎ ((a : A) × (r ≡ ok a))
Reply-cases (http c) = inl (c, refl)
Reply-cases (ok a) = inr (a, refl)

module _ (sys : System) (q : FilePath) (outside : is_under sys.backup_root q ≡ false) where
  -- A path below the root is not the path outside of it.
  apart : (p : FilePath) → is_under sys.backup_root p ≡ true → same_path p q ≡ false
  apart p h = elim (Bool-cases (same_path p q)) [
    | inl same ↦
        absurd
          (ground (arith, subst (λ x. is_under sys.backup_root x ≡ true) (same_path-eq p q same) h))
    | inr other ↦ other
  ]

  unlink_path-other :
      (p : FilePath) (disk d : Disk)
      → is_under sys.backup_root p ≡ true
      → unlink_path sys p disk ≡ some d
      → d q ≡ disk q
  unfolding removed
  unlink_path-other p disk d h e = rw (unlink_path-eq sys p disk d e) (ground (arith, apart p h))

  -- The root is a directory, so it is not unlinked, and a checksum file of a path below it lies below
  -- it too.
  unlink_backup-other :
      (p : FilePath) (disk : Disk)
      → disk sys.backup_root ≡ some directory
      → is_under sys.backup_root p ≡ true
      → (unlink_backup sys p disk).1 q ≡ disk q
  unfolding unlink_backup
  unlink_backup-other p disk root h = elim (Option-cases (unlink_path sys p disk)) [
    | inl e ↦ ground arith
    | inr (d, e) ↦ elim (with_sum-under sys.backup_root p h) [
      | inl same ↦
          absurd (ground (arith, unlink_path-directory sys p disk (ap disk (sym same) ∙ root)))
      | inr k ↦ elim (Option-cases (d (with_sum p))) [
        | inl f ↦ ground (arith, unlink_path-other p disk d h e)
        | inr (n, f) ↦ elim (Option-cases (unlink_path sys (with_sum p) d)) [
          | inl g ↦ ground (arith, unlink_path-other p disk d h e)
          | inr (d', g) ↦
              ground
                (arith, unlink_path-other p disk d h e, unlink_path-other (with_sum p) d d' k g)
        ]
      ]
    ]
  ]

  resolved-under :
      (f : String) (p : FilePath)
      → resolve_local_backup sys f ≡ ok p
      → is_under sys.backup_root p ≡ true
  unfolding resolve_local_backup
  resolved-under f p e = elim (Option-cases (sys.resolve f)) [
    | inl g ↦ absurd (ground arith)
    | inr (r, g) ↦ ground arith
  ]

  delete_local-other :
      (lower : String → String) (s : Targets) (error : String) (current : User) (f : String)
      (db_id : Option ℕ) (app : App s)
      → app.disk sys.backup_root ≡ some directory
      → (delete_local lower s sys error current f db_id app).1.disk q ≡ app.disk q
  unfolding delete_local
  delete_local-other lower s error current f db_id app root =
      elim (Reply-cases (resolve_local_backup sys f)) [
        | inl (c, e) ↦ ground arith
        | inr (p, e) ↦ ground (arith, unlink_backup-other p app.disk root (resolved-under f p e))
      ]

  delete_s3-other :
      (lower : String → String) (s : Targets) (error : String) (current : User) (f : String)
      (db_id : Option ℕ) (app : App s)
      → (delete_s3 lower s error current f db_id app).1.disk q ≡ app.disk q
  unfolding delete_s3
  delete_s3-other lower s error current f db_id app = ground arith

  -- Whatever file, location and database a request to delete a backup names, and whatever it is
  -- answered, nothing outside of the backup root is deleted: what was at any other path is there
  -- afterwards. The backup root is a directory.
  pub delete_backup-confined :
      (lower : String → String) (s : Targets) (error : String) (current : User)
      (f location : String) (db_id : Option ℕ) (app : App s)
      → app.disk sys.backup_root ≡ some directory
      → (delete_backup lower s sys error current f location db_id app).1.disk q ≡ app.disk q
  unfolding delete_backup
  delete_backup-confined lower s error current f location db_id app root = ground (
    arith,
    delete_local-other lower s error current f db_id app root,
    delete_s3-other lower s error current f db_id app,
  )
