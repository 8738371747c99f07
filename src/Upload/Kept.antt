-- ===== src/Upload/Kept.antt =====
-- After the loop over the targets the backup and its checksum are on every target that takes them.
use dbmanager.Base.{
  ℕ, String, ◌≡◌, sym, ◌∙◌, true, false, some, List, [], ◌∷◌, ◌==◌, ==_iff, any, arith, str_eq,
  Bool-cases, inl, inr,
}
use mathlib.Core.Path.{subst}
use dbmanager.Storage.{Bytes}
use dbmanager.Storage.Targets.{Targets, IsTargets}
use dbmanager.Files.{Content, read}
use dbmanager.Backups.{sha256}
use dbmanager.Protect.{Work}
use dbmanager.Protect.Names.{add-ne}
use dbmanager.Upload.{raw, remote_key, upload_sum, upload_to, upload_all}

-- A target that is there and takes every upload.
pub record Accepts (s : Targets) (i : ℕ) : Type 0 where
  pub there : (w : s.World) → s.exists i w ≡ true
  pub takes : (b : Bytes) (k : String) (w : s.World) → (s.upload i b k w).0 ≡ some true

module _ (s : Targets) (lawful : IsTargets s) (encode : List String → Bytes) (db : ℕ) (w : Work)
    (c d : Content) (summed : w.has_sum ≡ true) (file : read w.path w.dir ≡ some c)
    (sum : read (sha256 w.path) w.dir ≡ some d) where
  abbrev key : String
  key = remote_key s encode db w.path

  -- The backup and its checksum are on a target.
  pub record IsOn (i : ℕ) (world : s.World) : Type 0 where
    pub backup : s.download i key world ≡ some (some (raw s encode c))
    pub checksum : s.download i (sha256 key) world ≡ some (some (raw s encode d))

  key_ne : (str_eq (sha256 key) key ≡ false) × (str_eq key (sha256 key) ≡ false)
  key_ne = add-ne key ".sha256" (omega arith)

  -- What the body of the loop does on a target that takes every upload.
  upload_to-eq :
      (i : ℕ) (world : s.World)
      → Accepts s i
      → upload_to s encode db w i world
        ≡ (s.upload i (raw s encode d) (sha256 key) (s.upload i (raw s encode c) key world).1).1
  unfolding upload_to upload_sum
  upload_to-eq i world a = ground (arith, a.there world, a.takes (raw s encode c) key world)

  upload_to_self :
      (i : ℕ) (world : s.World) → Accepts s i → IsOn i (upload_to s encode db w i world)
  upload_to_self i world a =
      let w1 = (s.upload i (raw s encode c) key world).1 in
      let sent =
        lawful.download-upload i (raw s encode c) key world (a.takes (raw s encode c) key world) in
      let w2 = (s.upload i (raw s encode d) (sha256 key) w1).1 in
      let stays =
        lawful.upload-other i i (raw s encode d) (sha256 key) key w1 (ground (arith, key_ne.0)) in
      subst (IsOn i) (sym (upload_to-eq i world a)) (record {
        backup = stays ∙ sent;
        checksum =
            lawful.download-upload i (raw s encode d) (sha256 key) w1
              (a.takes (raw s encode d) (sha256 key) w1);
      })

  -- Another target is left alone, whether its uploads succeed or not.
  upload_to-other :
      (i j : ℕ) (k : String) (world : s.World)
      → (j == i) ≡ false
      → s.download i k (upload_to s encode db w j world) ≡ s.download i k world
  unfolding upload_to upload_sum
  upload_to-other i j k world n =
      let w1 = (s.upload j (raw s encode c) key world).1 in
      ground (
        arith,
        lawful.upload-other j i (raw s encode c) key k world (ground arith),
        lawful.upload-other j i (raw s encode d) (sha256 key) k w1 (ground arith),
      )

  upload_to-IsOn :
      (i j : ℕ) (world : s.World)
      → Accepts s i
      → IsOn i world
      → IsOn i (upload_to s encode db w j world)
  upload_to-IsOn i j world a h = elim (Bool-cases (j == i)) [
    | inl e ↦
        subst (λ n. IsOn i (upload_to s encode db w n world)) (sym ((==_iff j i).0 e))
          (upload_to_self i world a)
    | inr n ↦ record {
      backup = upload_to-other i j key world n ∙ h.backup;
      checksum = upload_to-other i j (sha256 key) world n ∙ h.checksum;
    }
  ]

  upload_all-keeps :
      (i : ℕ) (is : List ℕ) (world : s.World)
      → Accepts s i
      → IsOn i world
      → IsOn i (upload_all s encode db w is world)
  unfolding upload_all
  upload_all-keeps i [] world a h = h
  upload_all-keeps i (j ∷ is) world a h =
      upload_all-keeps i is (upload_to s encode db w j world) a (upload_to-IsOn i j world a h)

  -- After the loop over the targets of a database, the file of the backup and its checksum stand under
  -- their keys on each of these targets that is there and takes uploads, whatever the uploads to the
  -- other ones meet. The backup has a checksum file.
  pub upload_all-IsOn :
      (i : ℕ) (is : List ℕ) (world : s.World)
      → Accepts s i
      → any (λ j. j == i) is ≡ true
      → IsOn i (upload_all s encode db w is world)
  unfolding upload_all
  upload_all-IsOn i [] world a m = cc
  upload_all-IsOn i (j ∷ is) world a m = elim (Bool-cases (j == i)) [
    | inl e ↦ upload_all-keeps i is (upload_to s encode db w j world) a (
        subst (λ n. IsOn i (upload_to s encode db w n world)) (sym ((==_iff j i).0 e))
          (upload_to_self i world a))
    | inr n ↦ upload_all-IsOn i is (upload_to s encode db w j world) a (ground arith)
  ]
