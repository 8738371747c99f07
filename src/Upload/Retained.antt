-- ===== src/Upload/Retained.antt =====
-- A remote retention counts the checksum files as backups.
use dbmanager.Base.{
  ℕ, String, ◌≡◌, refl, ◌∙◌, Bool, true, false, none, some, List, [], ◌∷◌, All, arith, str_eq,
}
use dbmanager.Base.Text.{basename}
use dbmanager.Base.Sort.{sort_desc}
use dbmanager.Storage.{Bytes, Object}
use dbmanager.Storage.Targets.{Targets, IsTargets, provider_of}
use dbmanager.Backups.{sha256, delete_object, delete_objects, enforce_s3_retention}
use dbmanager.Protect.Names.{add-ne}
use dbmanager.Upload.{backup_dir, retain_on}

module _ (s : Targets) (lawful : IsTargets s) (encode : List String → Bytes)
    (starred : String → Bool) (i : ℕ) (k : String) where
  -- Neither the key nor the one of its checksum is the given one.
  abbrev pub Apart : Object → Type 0
  Apart o = (str_eq o.key k ≡ false) × (str_eq (sha256 o.key) k ≡ false)

  delete_object-other :
      (o : Object) (world : s.World)
      → Apart o
      → s.download i k (delete_object (provider_of s i) starred o world) ≡ s.download i k world
  unfolding delete_object
  delete_object-other o world h = ground (
    arith,
    lawful.delete-other i i o.key k world (ground arith),
    lawful.delete-other i i (sha256 o.key) k (s.delete i o.key world).1 (ground arith),
  )

  delete_objects-other :
      (os : List Object) (world : s.World)
      → All Apart os
      → s.download i k (delete_objects (provider_of s i) starred os world) ≡ s.download i k world
  unfolding delete_objects
  delete_objects-other [] world h = refl
  delete_objects-other (o ∷ os) world h =
      delete_objects-other os (delete_object (provider_of s i) starred o world) h.1
      ∙ delete_object-other o world h.0

  delete_object-gone :
      (o : Object) (world : s.World)
      → o.key ≡ k
      → starred (basename o.key) ≡ false
      → (s.delete i o.key world).0 ≡ some true
      → s.download i k (delete_object (provider_of s i) starred o world) ≡ some none
  unfolding delete_object
  delete_object-gone o world e n d = ground (
    arith,
    lawful.download-delete i o.key world d,
    lawful.delete-other i i (sha256 o.key) k (s.delete i o.key world).1
        (ground (arith, add-ne k ".sha256" (omega arith))),
  )

module _ (s : Targets) (lawful : IsTargets s) (encode : List String → Bytes)
    (starred : String → Bool) where
  -- A remote retention of one keeps the newest object, be it a checksum: where the newest object of a
  -- database is the checksum that was uploaded after a backup, and the backup, which is not starred,
  -- comes next, the backup is deleted, unless the deletion fails. No other object has its key.
  pub retention_of_one-loses :
      (db i : ℕ) (world : s.World) (os rest : List Object) (c o : Object)
      → s.exists i world ≡ true
      → s.list_files i (backup_dir s encode db) world ≡ some os
      → sort_desc (λ (x : Object). x.last_modified) os ≡ c ∷ o ∷ rest
      → c.key ≡ sha256 o.key
      → starred (basename o.key) ≡ false
      → (s.delete i o.key world).0 ≡ some true
      → All (Apart s lawful encode starred i o.key) rest
      → s.download i o.key (retain_on s encode starred 1 db i world) ≡ some none
  unfolding retain_on enforce_s3_retention delete_objects
  retention_of_one-loses db i world os rest c o there listed sorted newest plain deleted apart =
      let w' = delete_object (provider_of s i) starred o world in
      rw (there, listed, sorted)
        (delete_objects-other s lawful encode starred i o.key rest w' apart
          ∙ delete_object-gone s lawful encode starred i o.key o world refl plain deleted)
