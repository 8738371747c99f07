-- ===== src/Restore/Roundtrip.antt =====
-- A backup that was written is prepared for a restore as the dump that the provider made.
use dbmanager.Base.{ℕ, String, ◌≡◌, sym, ap, ◌∙◌, true, inl, inr, Option, some, [], is_some}
use mathlib.Core.Path.{subst}
use dbmanager.Base.Text.{add}
use dbmanager.Storage.{Bytes}
use dbmanager.Files.{read}
use dbmanager.Encryption.{unseal-seal, IsAead}
use dbmanager.Backups.{sha256}
use dbmanager.Protect.{
  Tools, Settings, Work, read_bytes, protect, checksum_stage, compress_stage, encrypt_stage,
}
use dbmanager.Protect.Names.{codec_suffix-IsCodec, IsCodec-IsAdded}
use dbmanager.Protect.Compression.{
  Holds, binary-read_bytes, checksum_stage-Holds, compress_stage-Holds,
}
use dbmanager.Protect.Sealed.{encrypt_stage-Holds}
use dbmanager.Restore.{prepare, expected_hash, decompress_step}
use dbmanager.Restore.Branches.{
  IsPlain, decompress_step-plain, decompress_step-codec, prepare-compressed, codec_not_enc,
  codec_needs_copy, prepare-untouched, prepare-encrypted,
}

-- The codecs and the cipher give back what they were given.
pub record IsSound (t : Tools) : Type 0 where
  pub inflates :
      (alg : String) (level : ℕ) (b z : Bytes)
      → t.deflate alg level b ≡ some z
      → t.inflate alg z ≡ some b
  pub aead : IsAead t.aead

-- What `restore_database` gets from the directory for a file of it.
abbrev pub prepared : (t : Tools) → Settings → Work → Option (String × Bytes)
prepared t s w =
    let sum = read (sha256 w.path) w.dir in
    prepare t s (is_some sum) (expected_hash sum) w.path w.dir

module _ (t : Tools) (sound : IsSound t) where
  -- After the encryption stage, if the file before it holds `c` and decompresses to `out`.
  after_encryption :
      (now : ℕ) (s : Settings) (w : Work) (c : Bytes) (out : String × Bytes)
      → Holds t w c
      → decompress_step t w.path c ≡ some out
      → prepared t s w ≡ some out
      → prepared t s (encrypt_stage t now s w) ≡ some out
  unfolding expected_hash
  after_encryption now s w c out h d kept = elim (encrypt_stage-Holds t now s w c h) [
    | inl e ↦ rw e kept
    | inr x ↦
        rw (x.sum, x.named)
          (prepare-encrypted t s w.path x.password c x.out out true (encrypt_stage t now s w).dir
            x.usable (unseal-seal t.aead x.password c x.out sound.aead x.sealed)
            (rw x.named at x.bytes) d)
  ]

  from_checksum :
      (now : ℕ) (s : Settings) (w : Work) (b : Bytes)
      → IsPlain w.path
      → Holds t w b
      → prepared t s (encrypt_stage t now s (compress_stage t now s w)) ≡ some (w.path, b)
  unfolding expected_hash
  from_checksum now s w b plain h = elim (compress_stage-Holds t now s w b h) [
    | inl e ↦ rw e (
        after_encryption now s w b (w.path, b) h (decompress_step-plain t w.path b plain)
          (rw h.sum (prepare-untouched t s w.path b w.dir [] plain h.bytes h.sum)))
    | inr x ↦
        let alg = t.lower s.algorithm in
        let k = codec_suffix-IsCodec t now alg x.ext x.codec in
        let a = IsCodec-IsAdded alg x.ext k in
        let i = sound.inflates alg s.level b x.out x.deflated in
        let w' : Work = compress_stage t now s w in
        after_encryption now s w' x.out (w.path, b) x.holds
          (rw x.named (decompress_step-codec t alg x.ext w.path b x.out k a i))
          (rw x.named (
            prepare-compressed t s alg x.ext w.path b x.out
              (is_some (read (sha256 (add w.path x.ext)) w'.dir))
              (expected_hash (read (sha256 (add w.path x.ext)) w'.dir)) w'.dir k a i
              (codec_not_enc t alg x.ext w.path k) (codec_needs_copy t alg x.ext w.path k)
              (rw x.named at x.holds.bytes)))
  ]

  -- The dump of a provider whose file name has none of the extensions `.gz`, `.zst`, `.lz4` and
  -- `.enc`, written to a backup under any compression and encryption settings, is what a restore
  -- under the same settings hands to the provider, under its old name. The codecs and the cipher
  -- give back what they were given.
  pub prepare-protect :
      (now : ℕ) (s : Settings) (w : Work) (b : Bytes)
      → IsPlain w.path
      → read_bytes w.path w.dir ≡ some b
      → prepared t s (protect t now s w) ≡ some (w.path, b)
  unfolding protect
  prepare-protect now s w b plain r =
      let (h, e) = checksum_stage-Holds t now w b (binary-read_bytes w.path b w.dir r) in
      from_checksum now s (checksum_stage t now w) b (subst IsPlain (sym e) plain) h
      ∙ ap (λ n. some (n, b)) e
