-- ===== src/Migration/Kept.antt =====
-- A migration between two targets loses no backup.
use dbmanager.Base.{
  ℕ, String, ◌≡◌, refl, ◌∙◌, Bool, true, false, some, List, [], ◌∷◌, ◌==◌, ◌⊎◌, map, All, arith,
  str_eq, eq_iff, Option-cases, Bool-cases, inl, inr,
}
use dbmanager.Storage.{Bytes, Object}
use dbmanager.Storage.Targets.{Targets, IsTargets}
use dbmanager.Migration.{
  Progress, after_upload, migrate_file, migrate_files, migrate_database_backups, backup_prefix,
}

module _ (t : Targets) (lawful : IsTargets t) (old new : ℕ) (delete_old : Bool)
    (apart : (old == new) ≡ false) where
  abbrev Holds : ℕ → String → Bytes → Progress t → Type 0
  Holds i k b p = t.download i k p.world ≡ some (some b)

  -- A file of one of the targets is left alone by the move of another file.
  migrate_file-other :
      (i : ℕ) (j k : String) (p : Progress t)
      → str_eq j k ≡ false
      → t.download i k (migrate_file t old new delete_old j p).world ≡ t.download i k p.world
  unfolding migrate_file after_upload
  migrate_file-other i j k p h = elim (Option-cases (t.download old j p.world)) [
    | inl e ↦ ground arith
    | inr (o, e) ↦ elim (Option-cases o) [
      | inl f ↦ ground arith
      | inr (b, f) ↦ ground (
        arith,
        lawful.upload-other new i b j k p.world,
        lawful.delete-other old i j k (t.upload new b j p.world).1,
      )
    ]
  ]

  -- The file that is moved is in one of the targets afterwards.
  migrate_file-kept :
      (k : String) (b : Bytes) (p : Progress t)
      → Holds old k b p
      → Holds old k b (migrate_file t old new delete_old k p)
        ⊎ Holds new k b (migrate_file t old new delete_old k p)
  unfolding migrate_file after_upload
  migrate_file-kept k b p h =
      let w' = (t.upload new b k p.world).1 in
      let kept = lawful.upload-other new old b k k p.world (ground arith) in
      elim (Option-cases (t.upload new b k p.world).0) [
        | inl e ↦ inl (ground (arith, kept))
        | inr (true, e) ↦ inr (
            ground (
              arith,
              lawful.download-upload new b k p.world e,
              lawful.delete-other old new k k w' (ground arith),
            ))
        | inr (false, e) ↦ inl (ground (arith, kept))
      ]

  moved :
      (j k : String) (b : Bytes) (p : Progress t)
      → j ≡ k
      → Holds old k b p
      → Holds old k b (migrate_file t old new delete_old j p)
        ⊎ Holds new k b (migrate_file t old new delete_old j p)
  moved j k b p e h = rw e (migrate_file-kept k b p h)

  -- What was saved in one of the targets stays there while other files are moved.
  migrate_files-other :
      (i : ℕ) (k : String) (ks : List String) (p : Progress t)
      → All (λ j. str_eq j k ≡ false) ks
      → t.download i k (migrate_files t old new delete_old ks p).world ≡ t.download i k p.world
  unfolding migrate_files
  migrate_files-other i k [] p h = refl
  migrate_files-other i k (j ∷ ks) p h =
      migrate_files-other i k ks (migrate_file t old new delete_old j p) h.1
      ∙ migrate_file-other i j k p h.0

  -- No key is listed twice.
  abbrev pub Distinct : List String → Type 0
  Distinct [] = Unit
  Distinct (k ∷ ks) = All (λ j. str_eq j k ≡ false) ks × Distinct ks

  migrate_files-kept :
      (k : String) (b : Bytes) (ks : List String) (p : Progress t)
      → Distinct ks
      → Holds old k b p
      → Holds old k b (migrate_files t old new delete_old ks p)
        ⊎ Holds new k b (migrate_files t old new delete_old ks p)
  unfolding migrate_files
  migrate_files-kept k b [] p d h = inl h
  migrate_files-kept k b (j ∷ ks) p d h = elim (Bool-cases (str_eq j k)) [
    | inr differs ↦
        migrate_files-kept k b ks (migrate_file t old new delete_old j p) d.1
          (migrate_file-other old j k p differs ∙ h)
    | inl same ↦
        let e = (eq_iff j k).0 same in
        let p' : Progress t = migrate_file t old new delete_old j p in
        let rest = rw e at d.0 in
        elim (moved j k b p e h) [
          | inl o ↦ inl (migrate_files-other old k ks p' rest ∙ o)
          | inr n ↦ inr (migrate_files-other new k ks p' rest ∙ n)
        ]
  ]

  -- A migration from one target to another loses no backup, whatever fails on the way and whether or
  -- not the old files are deleted: a file of the old target is there afterwards, or it is in the new
  -- one under its key. The old target lists no key twice.
  pub migrate_database_backups-kept :
      (db : ℕ) (k : String) (b : Bytes) (w : t.World) (os : List Object)
      → t.list_files old (backup_prefix t old new delete_old db) w ≡ some os
      → Distinct (map (λ (o : Object). o.key) os)
      → t.download old k w ≡ some (some b)
      → let w' = (migrate_database_backups t old new delete_old db w).1 in
        (t.download old k w' ≡ some (some b)) ⊎ (t.download new k w' ≡ some (some b))
  unfolding migrate_database_backups
  migrate_database_backups-kept db k b w os listed d h = elim (Bool-cases (t.exists old w)) [
    | inr e ↦ inl (ground arith)
    | inl e ↦ elim (Bool-cases (t.exists new w)) [
      | inr f ↦ inl (ground arith)
      | inl f ↦
          rw (e, f, listed)
            (migrate_files-kept k b (map (λ (o : Object). o.key) os)
              (record { success_count = 0; failed_files = []; world = w }) d h)
    ]
  ]
