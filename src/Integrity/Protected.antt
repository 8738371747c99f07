-- ===== src/Integrity/Protected.antt =====
-- A backup that was written passes the check, and one that passes has the checked bytes.
use dbmanager.Base.{
  ℕ, ◌<◌, String, ◌≡◌, refl, ap, ◌∙◌, true, false, Option, none, some, arith, length, eq_iff,
  Option-cases, Bool-cases, inl, inr, is_some,
}
use text.Mathlib.TextPositions.{eq_refl}
use dbmanager.Base.Text.{ends_with, ends_with-add}
use dbmanager.Storage.{Bytes}
use dbmanager.Files.{Content, Dir, read}
use dbmanager.Encryption.{unseal, unseal-seal, IsAead}
use dbmanager.Backups.{sha256}
use dbmanager.Protect.{
  Tools, Settings, Work, read_bytes, usable_password, protect, checksum_stage, compress_stage,
  encrypt_stage,
}
use dbmanager.Protect.Names.{codec_suffix-IsCodec}
use dbmanager.Protect.Compression.{
  Holds, read_bytes-binary, binary-read_bytes, checksum_stage-Holds, compress_stage-Holds,
}
use dbmanager.Protect.Sealed.{Encrypted, encrypt_stage-Holds}
use dbmanager.Restore.{expected_hash, first_word, verify_checksum}
use dbmanager.Restore.Branches.{codec_not_enc}
use dbmanager.Restore.Prepare.{checked_bytes, expected_hash-first_word}
use dbmanager.Integrity.{check_checksum, verify_backup, verify_encrypted, verify_backup_integrity}

has_checksum : (c : Option Content) (h : String) → expected_hash c ≡ some h → is_some c ≡ true
unfolding expected_hash
has_checksum none h e = cc
has_checksum (some c) h e = refl

module _ (t : Tools) where
  -- What the check needs of a file as it stands.
  verify-Holds :
      (s : Settings) (w : Work) (c : Bytes)
      → Holds t w c
      → ends_with ".enc" w.path ≡ false
      → 0 < length c
      → verify_backup_integrity t s w.path w.dir ≡ some true
  unfolding verify_backup_integrity verify_backup check_checksum verify_checksum first_word
  verify-Holds s w c h plain long =
      ground (arith, h.sum, read_bytes-binary w.path c w.dir h.bytes, eq_refl (t.hash c))

  verify-Encrypted :
      (now : ℕ) (s : Settings) (w w' : Work) (c : Bytes)
      → IsAead t.aead
      → Encrypted t now s w c w'
      → verify_backup_integrity t s w'.path w'.dir ≡ some true
  unfolding verify_backup_integrity verify_encrypted expected_hash
  verify-Encrypted now s w w' c lawful x = ground (
    arith,
    x.usable,
    x.sum,
    read_bytes-binary w'.path x.out w'.dir x.bytes,
    unseal-seal t.aead x.password c x.out lawful x.sealed,
    eq_refl (t.hash c),
    ap (ends_with ".enc") x.named,
    ends_with-add w.path ".enc",
  )

  after_encryption :
      (now : ℕ) (s : Settings) (w : Work) (c : Bytes)
      → IsAead t.aead
      → Holds t w c
      → ends_with ".enc" w.path ≡ false
      → 0 < length c
      → let w' = encrypt_stage t now s w in verify_backup_integrity t s w'.path w'.dir ≡ some true
  after_encryption now s w c lawful h plain long = elim (encrypt_stage-Holds t now s w c h) [
    | inl e ↦ rw e (verify-Holds s w c h plain long)
    | inr x ↦ verify-Encrypted now s w (encrypt_stage t now s w) c lawful x
  ]

  -- A codec never answers with an empty text.
  abbrev pub IsFull : Type 0
  IsFull = (alg : String) (level : ℕ) (b z : Bytes) → t.deflate alg level b ≡ some z → 0 < length z

  -- A backup that was written under any compression and encryption settings passes the check of its
  -- integrity under the same settings. The dump is not empty and its name does not end with `.enc`; the
  -- cipher gives back what it was given, and a codec never answers with an empty text.
  pub verify-protect :
      (now : ℕ) (s : Settings) (w : Work) (b : Bytes)
      → IsAead t.aead
      → IsFull
      → ends_with ".enc" w.path ≡ false
      → 0 < length b
      → read_bytes w.path w.dir ≡ some b
      → let w' = protect t now s w in verify_backup_integrity t s w'.path w'.dir ≡ some true
  unfolding protect
  verify-protect now s w b lawful full plain long r =
      let (h, e) = checksum_stage-Holds t now w b (binary-read_bytes w.path b w.dir r) in
      let w1 : Work = checksum_stage t now w in
      let plain1 : ends_with ".enc" w1.path ≡ false = rw e plain in
      elim (compress_stage-Holds t now s w1 b h) [
        | inl same ↦ rw same (after_encryption now s w1 b lawful h plain1 long)
        | inr x ↦
            after_encryption now s (compress_stage t now s w1) x.out lawful x.holds
              (ap (ends_with ".enc") x.named
                ∙ codec_not_enc t (t.lower s.algorithm) x.ext w1.path
                    (codec_suffix-IsCodec t now (t.lower s.algorithm) x.ext x.codec))
              (full (t.lower s.algorithm) s.level b x.out x.deflated)
      ]

  -- A backup with a hash in its checksum file that passes the check has the bytes with this hash: the
  -- file itself, or what it decrypts to where its name ends with `.enc`.
  pub verified_bytes_match :
      (s : Settings) (n h : String) (dir : Dir)
      → expected_hash (read (sha256 n) dir) ≡ some h
      → verify_backup_integrity t s n dir ≡ some true
      → (b : Bytes) × (checked_bytes t s n dir ≡ some b) × (t.hash b ≡ h)
  unfolding verify_backup_integrity verify_encrypted verify_backup check_checksum verify_checksum
      checked_bytes
  verified_bytes_match s n h dir e v = elim (Option-cases (read_bytes n dir)) [
    | inl none_read ↦ absurd (ground arith)
    | inr (b, r) ↦ elim (Bool-cases (ends_with ".enc" n)) [
      | inr plain ↦ (
        b,
        ground arith,
        ground (
          arith,
          has_checksum (read (sha256 n) dir) h e,
          expected_hash-first_word (read (sha256 n) dir) h e,
          eq_iff (t.hash b) h,
        ),
      )
      | inl enc ↦ elim (Option-cases (usable_password s)) [
        | inl f ↦ absurd (ground arith)
        | inr (password, f) ↦ elim (Option-cases (unseal t.aead password b)) [
          | inl g ↦ absurd (ground arith)
          | inr (d, g) ↦ (d, ground arith, ground (arith, eq_iff (t.hash d) h))
        ]
      ]
    ]
  ]
