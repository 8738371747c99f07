-- ===== src/Restore/Branches.antt =====
-- The branches of the preparation: a plain file, a compressed one and an encrypted one.
use dbmanager.Base.{
  String, ◌≡◌, refl, Bool, true, false, inl, inr, Option, some, List, ◌∷◌, arith, ◌||◌,
}
use text.Mathlib.TextPositions.{eq_refl}
use dbmanager.Base.Text.{add, ends_with, contains, ends_with-add}
use dbmanager.Base.Suffix.{suffix, find_suffix-add, stem-add, ends_with-add_other, contains-add}
use dbmanager.Storage.{Bytes}
use dbmanager.Files.{binary, words, Dir, read}
use dbmanager.Encryption.{unseal}
use dbmanager.Backups.{sha256}
use dbmanager.Protect.{Tools, Settings, usable_password}
use dbmanager.Protect.Names.{IsCodec, IsAdded, enc-IsAdded, gz-IsAdded, zst-IsAdded, lz4-IsAdded}
use dbmanager.Protect.Compression.{read_bytes-binary}
use dbmanager.Restore.{
  prepare, prepare_copy, decrypt_step, prepare_plain, verify_checksum, first_word, matches,
  needs_copy, decompress_step, decompress, decrypted_name,
}

-- The provider's file has none of the extensions that mark a compressed or encrypted file.
pub record IsPlain (n : String) : Type 0 where
  pub no_gz : contains ".gz" n ≡ false
  pub no_zst : contains ".zst" n ≡ false
  pub no_lz4 : contains ".lz4" n ≡ false
  pub no_enc : contains ".enc" n ≡ false
  pub ends_gz : ends_with ".gz" n ≡ false
  pub ends_zst : ends_with ".zst" n ≡ false
  pub ends_lz4 : ends_with ".lz4" n ≡ false
  pub ends_enc : ends_with ".enc" n ≡ false

module _ (t : Tools) where
  pub decompress_step-plain :
      (n : String) (b : Bytes) → IsPlain n → decompress_step t n b ≡ some (n, b)
  unfolding decompress_step
  decompress_step-plain n b p = ground (arith, p.ends_gz, p.ends_zst, p.ends_lz4)

  decompress_codec :
      (alg e : String) (z : Bytes) → IsCodec alg e → decompress t e z ≡ t.inflate alg z
  unfolding decompress
  decompress_codec alg e z (inl (a, s)) = rw (a, s) refl
  decompress_codec alg e z (inr (inl (a, s))) = rw (a, s) refl
  decompress_codec alg e z (inr (inr (a, s))) = rw (a, s) refl

  codec_ends :
      (alg e n : String)
      → IsCodec alg e
      → (ends_with ".gz" (add n e)
          || (ends_with ".zst" (add n e) || (ends_with ".lz4" (add n e) || false)))
        ≡ true
  codec_ends alg e n (inl (a, s)) = rw s (ground (arith, ends_with-add n ".gz"))
  codec_ends alg e n (inr (inl (a, s))) = rw s (ground (arith, ends_with-add n ".zst"))
  codec_ends alg e n (inr (inr (a, s))) = rw s (ground (arith, ends_with-add n ".lz4"))

  suffix-add : (n e : String) → IsAdded e → suffix (add n e) ≡ e
  unfolding suffix
  suffix-add n e a = ground (arith, find_suffix-add n e a.suf)

  pub decompress_step-codec :
      (alg e n : String) (b z : Bytes)
      → IsCodec alg e
      → IsAdded e
      → t.inflate alg z ≡ some b
      → decompress_step t (add n e) z ≡ some (n, b)
  unfolding decompress_step
  decompress_step-codec alg e n b z k a i = ground (
    arith,
    codec_ends alg e n k,
    suffix-add n e a,
    decompress_codec alg e z k,
    stem-add n e a.suf a.bare,
  )

  -- A file that is not encrypted, and was compressed.
  pub prepare-compressed :
      (s : Settings) (alg e n : String) (b z : Bytes) (has : Bool) (h : Option String) (dir : Dir)
      → IsCodec alg e
      → IsAdded e
      → t.inflate alg z ≡ some b
      → ends_with ".enc" (add n e) ≡ false
      → needs_copy (add n e) ≡ true
      → read (add n e) dir ≡ some (binary z)
      → prepare t s has h (add n e) dir ≡ some (n, b)
  unfolding prepare prepare_copy decrypt_step matches
  prepare-compressed s alg e n b z has h dir k a i enc copy r =
      ground (arith, read_bytes-binary (add n e) z dir r, decompress_step-codec alg e n b z k a i)

  pub codec_not_enc : (alg e n : String) → IsCodec alg e → ends_with ".enc" (add n e) ≡ false
  codec_not_enc alg e n (inl (a, s)) =
      rw s (ends_with-add_other ".enc" ".gz" n enc-IsAdded.suf gz-IsAdded.suf refl)
  codec_not_enc alg e n (inr (inl (a, s))) =
      rw s (ends_with-add_other ".enc" ".zst" n enc-IsAdded.suf zst-IsAdded.suf refl)
  codec_not_enc alg e n (inr (inr (a, s))) =
      rw s (ends_with-add_other ".enc" ".lz4" n enc-IsAdded.suf lz4-IsAdded.suf refl)

  pub codec_needs_copy : (alg e n : String) → IsCodec alg e → needs_copy (add n e) ≡ true
  unfolding needs_copy
  codec_needs_copy alg e n (inl (a, s)) = rw s (ground (arith, contains-add n ".gz"))
  codec_needs_copy alg e n (inr (inl (a, s))) = rw s (ground (arith, contains-add n ".zst"))
  codec_needs_copy alg e n (inr (inr (a, s))) = rw s (ground (arith, contains-add n ".lz4"))

  pub prepare-untouched :
      (s : Settings) (n : String) (b : Bytes) (dir : Dir) (ws : List String)
      → IsPlain n
      → read n dir ≡ some (binary b)
      → read (sha256 n) dir ≡ some (words (t.hash b ∷ n ∷ ws))
      → prepare t s true (some (t.hash b)) n dir ≡ some (n, b)
  unfolding prepare prepare_plain verify_checksum first_word needs_copy
  prepare-untouched s n b dir ws p r q = ground (
    arith,
    p.ends_enc,
    p.no_enc,
    p.no_gz,
    p.no_zst,
    p.no_lz4,
    read_bytes-binary n b dir r,
    q,
    eq_refl (t.hash b),
  )

  decrypted_name-add : (n : String) → decrypted_name t (add n ".enc") ≡ n
  unfolding decrypted_name
  decrypted_name-add n =
      rw (decrypted_name, suffix-add n ".enc" enc-IsAdded)
        (stem-add n ".enc" enc-IsAdded.suf enc-IsAdded.bare)

  -- An encrypted file, whose checksum is that of the bytes before the encryption.
  pub prepare-encrypted :
      (s : Settings) (n p : String) (c f : Bytes) (out : String × Bytes) (has : Bool) (dir : Dir)
      → usable_password s ≡ some p
      → unseal t.aead p f ≡ some c
      → read (add n ".enc") dir ≡ some (binary f)
      → decompress_step t n c ≡ some out
      → prepare t s has (some (t.hash c)) (add n ".enc") dir ≡ some out
  unfolding prepare prepare_copy decrypt_step matches needs_copy
  prepare-encrypted s n p c f out has dir u k r d = ground (
    arith,
    ends_with-add n ".enc",
    read_bytes-binary (add n ".enc") f dir r,
    u,
    k,
    eq_refl (t.hash c),
    decrypted_name-add n,
    d,
  )
