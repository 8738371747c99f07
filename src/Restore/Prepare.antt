-- ===== src/Restore/Prepare.antt =====
-- What the preparation of a backup checks before the file goes to the provider, and what not.
use dbmanager.Base.{
  String, ◌≡◌, true, false, Bool-cases, Option-cases, inl, inr, ◌⊎◌, Option, none, some, ◌∷◌, arith,
  eq_iff, if◌then◌else◌,
}
use dbmanager.Base.Text.{ends_with}
use dbmanager.Storage.{Bytes}
use dbmanager.Files.{Content, words, Dir, read}
use dbmanager.Backups.{sha256}
use dbmanager.Encryption.{unseal}
use dbmanager.Protect.{Tools, Settings, read_bytes, usable_password}
use dbmanager.Restore.{
  prepare, prepare_copy, decrypt_step, prepare_plain, verify_checksum, first_word, expected_hash,
  matches, needs_copy,
}

pub expected_hash-first_word :
    (c : Option Content) (h : String) → expected_hash c ≡ some h → first_word c ≡ some h
unfolding expected_hash first_word
expected_hash-first_word (some (words (h ∷ w ∷ ws))) k e = e
expected_hash-first_word c k e = cc

module _ (t : Tools) (s : Settings) (n : String) where
  -- The bytes that carry the checksum: what an encrypted file decrypts to, else the file itself.
  unfoldable pub checked_bytes : Dir → Option Bytes
  checked_bytes dir = elim (read_bytes n dir) [
    | none ↦ none
    | some b ↦
        if ends_with ".enc" n
        then elim (usable_password s) [ none ↦ none | some p ↦ unseal t.aead p b ]
        else some b
  ]

  first_word-expected :
      (dir : Dir) (h : String)
      → expected_hash (read (sha256 n) dir) ≡ some h
      → first_word (read (sha256 n) dir) ≡ some h
  unfolding expected_hash first_word
  first_word-expected dir h e = expected_hash-first_word (read (sha256 n) dir) h e

  encrypted_verifies :
      (h : String) (dir : Dir) (out : String × Bytes)
      → ends_with ".enc" n ≡ true
      → prepare t s true (some h) n dir ≡ some out
      → (b : Bytes) × (checked_bytes dir ≡ some b) × (t.hash b ≡ h)
  unfolding prepare prepare_copy decrypt_step matches needs_copy checked_bytes
  encrypted_verifies h dir out enc p = elim (Option-cases (read_bytes n dir)) [
    | inl e ↦ absurd (ground arith)
    | inr (b, e) ↦ elim (Option-cases (usable_password s)) [
      | inl f ↦ absurd (ground arith)
      | inr (password, f) ↦ elim (Option-cases (unseal t.aead password b)) [
        | inl g ↦ absurd (ground arith)
        | inr (d, g) ↦ (d, ground arith, ground (arith, eq_iff (t.hash d) h))
      ]
    ]
  ]

  plain_verifies :
      (h : String) (dir : Dir) (out : String × Bytes)
      → first_word (read (sha256 n) dir) ≡ some h
      → ends_with ".enc" n ≡ false
      → needs_copy n ≡ false
      → prepare t s true (some h) n dir ≡ some out
      → (b : Bytes) × (checked_bytes dir ≡ some b) × (t.hash b ≡ h)
  unfolding prepare prepare_plain verify_checksum checked_bytes
  plain_verifies h dir out w enc copy p = elim (Option-cases (read_bytes n dir)) [
    | inl e ↦ absurd (ground arith)
    | inr (b, e) ↦ (b, ground arith, ground (arith, eq_iff (t.hash b) h))
  ]

  -- A file that is encrypted, or neither encrypted nor compressed, reaches the provider only if the
  -- bytes that carry the checksum have the hash of its checksum file, where there is one.
  pub prepare-verifies :
      (h : String) (dir : Dir) (out : String × Bytes)
      → expected_hash (read (sha256 n) dir) ≡ some h
      → (ends_with ".enc" n ≡ true) ⊎ (needs_copy n ≡ false)
      → prepare t s true (some h) n dir ≡ some out
      → (b : Bytes) × (checked_bytes dir ≡ some b) × (t.hash b ≡ h)
  prepare-verifies h dir out e (inl enc) p = encrypted_verifies h dir out enc p
  prepare-verifies h dir out e (inr copy) p = elim (Bool-cases (ends_with ".enc" n)) [
    | inl enc ↦ encrypted_verifies h dir out enc p
    | inr enc ↦ plain_verifies h dir out (first_word-expected dir h e) enc copy p
  ]
