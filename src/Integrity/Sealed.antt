-- ===== src/Integrity/Sealed.antt =====
-- An encrypted backup on a storage target.
use dbmanager.Base.{ℕ, String, ◌≡◌, ◌≢◌, false, Option, some, List, [], ◌∷◌, arith, str_eq, eq_iff}
use text.Mathlib.TextPositions.{eq_refl}
use dbmanager.Base.Text.{basename}
use dbmanager.Config.{Manager}
use dbmanager.Storage.{Bytes}
use dbmanager.Storage.Targets.{Targets}
use dbmanager.Files.{read}
use dbmanager.Backups.{sha256}
use dbmanager.Protect.{Tools, Settings, Work, read_bytes}
use dbmanager.Protect.Names.{add-ne}
use dbmanager.Protect.Sealed.{Encrypted}
use dbmanager.Restore.{first_word, verify_checksum}
use dbmanager.Integrity.{check_checksum, verify_backup}
use dbmanager.Integrity.Remote.{temp_dir, verify_download, verify_object, bucket_of, verify_s3}

module _ (t : Tools) (s : Targets) (encode : List String → Bytes)
    (decode : Bytes → List String) where
  -- A file and its checksum file on a target.
  pub record IsStored (i : ℕ) (key : String) (b : Bytes) (sum : List String) (world : s.World)
      : Type 0 where
    pub info : (h : Option String) × (s.get_file_info i key world ≡ some (some h))
    pub file : s.download i key world ≡ some (some b)
    pub sum_info : (h : Option String) × (s.get_file_info i (sha256 key) world ≡ some (some h))
    pub sum_file : s.download i (sha256 key) world ≡ some (some (encode sum))

  -- A file whose checksum line has another hash fails.
  wrong_hash :
      (n h p : String) (b : Bytes)
      → decode (encode (h ∷ p ∷ [])) ≡ h ∷ p ∷ []
      → str_eq (t.hash b) h ≡ false
      → (verify_backup t n (temp_dir t s decode n b (some (encode (h ∷ p ∷ []))))).valid ≡ false
  unfolding verify_backup check_checksum verify_checksum first_word read_bytes read
  wrong_hash n h p b d ne =
      ground (arith, add-ne n ".sha256" (omega arith), eq_refl n, eq_refl (sha256 n))

  -- An encrypted backup on a target, with the checksum file that was made with it, never passes the
  -- check there: it compares the hash of the encrypted bytes, and the file has the hash of the bytes
  -- before. The two hashes differ, and a checksum line is read as it was written.
  pub verify_s3-Encrypted :
      (now : ℕ) (settings : Settings) (w w' : Work) (c : Bytes)
      (x : Encrypted t now settings w c w') (db_id : Option ℕ) (m : Manager) (i : ℕ) (key : String)
      (world : s.World)
      → bucket_of t s decode db_id m world ≡ some i
      → IsStored i key x.out (t.hash c ∷ w.path ∷ []) world
      → decode (encode (t.hash c ∷ w.path ∷ [])) ≡ t.hash c ∷ w.path ∷ []
      → t.hash x.out ≢ t.hash c
      → verify_s3 t s decode db_id m key world ≡ some false
  unfolding verify_s3 verify_object verify_download
  verify_s3-Encrypted now settings w w' c x db_id m i key world found stored read_back differ =
      let (h, e) = stored.info in
      let (h', e') = stored.sum_info in
      let fails =
        wrong_hash (basename key) (t.hash c) w.path x.out read_back
          (ground (arith, eq_iff (t.hash x.out) (t.hash c))) in
      ground (arith, found, e, stored.file, e', stored.sum_file, fails)
