-- ===== src/Protect/Compression.antt =====
-- What checksum and compression leave in the directory: bytes that decode to the dump,
-- and a checksum file of the bytes before the encryption.
use text.Mathlib.TextPositions.{eq_refl}
use dbmanager.Base.{
  ℕ, String, ◌≡◌, refl, true, false, Bool-cases, Option-cases, inl, inr, ◌⊎◌, none, some, [], ◌∷◌,
  arith, str_eq, if◌then◌else◌,
}
use dbmanager.Base.Text.{add}
use dbmanager.Storage.{Bytes}
use dbmanager.Files.{Content, binary, words, Dir, read, unlink, read-unlink, read-put_file}
use dbmanager.Backups.{sha256}
use dbmanager.Protect.{
  Tools, Settings, Work, write, read_bytes, save_checksum, codec_suffix, compress_file,
  checksum_stage, compress_stage,
}
use dbmanager.Protect.Names.{
  add-ne, add-ne_suffix, IsAdded, sha256-suffix, codec_suffix-IsCodec, IsCodec-IsAdded,
}

-- The file of the backup holds the bytes, and its checksum file their hash.
pub record Holds (t : Tools) (w : Work) (c : Bytes) : Type 0 where
  pub bytes : read w.path w.dir ≡ some (binary c)
  pub sum : read (sha256 w.path) w.dir ≡ some (words (t.hash c ∷ w.path ∷ []))
  pub summed : w.has_sum ≡ true

pub read_bytes-binary :
    (n : String) (b : Bytes) (dir : Dir) → read n dir ≡ some (binary b) → read_bytes n dir ≡ some b
unfolding read_bytes
read_bytes-binary n b dir h = ground arith

-- The converse: a file that gives bytes is binary.
pub binary-read_bytes :
    (n : String) (b : Bytes) (dir : Dir) → read_bytes n dir ≡ some b → read n dir ≡ some (binary b)
unfolding read_bytes
binary-read_bytes n b dir h = ground arith

module _ (t : Tools) (now : ℕ) where
  read-write :
      (n m : String) (c : Content) (dir : Dir)
      → read n (write t now m c dir) ≡ (if str_eq m n then some c else read n dir)
  read-write n m c dir =
      read-put_file n (record { name = m; mtime = now; size = 0; content = c }) dir

  save_checksum-eq :
      (n : String) (c : Bytes) (dir : Dir)
      → read n dir ≡ some (binary c)
      → save_checksum t now n dir ≡ some (write t now (sha256 n) (words (t.hash c ∷ n ∷ [])) dir)
  unfolding save_checksum
  save_checksum-eq n c dir h = ground (arith, read_bytes-binary n c dir h)

  -- The directory after `save_checksum`.
  saved-Holds :
      (n : String) (c : Bytes) (dir : Dir)
      → read n dir ≡ some (binary c)
      → Holds t
          (record {
            path = n;
            has_sum = true;
            dir = write t now (sha256 n) (words (t.hash c ∷ n ∷ [])) dir;
          })
          c
  saved-Holds n c dir h = record {
    bytes =
        ground (arith, read-write n (sha256 n) (words (t.hash c ∷ n ∷ [])) dir, add-ne n ".sha256");
    sum = ground (
      arith,
      read-write (sha256 n) (sha256 n) (words (t.hash c ∷ n ∷ [])) dir,
      eq_refl (sha256 n),
    );
    summed = refl;
  }

  pub checksum_stage-Holds :
      (w : Work) (c : Bytes)
      → read w.path w.dir ≡ some (binary c)
      → Holds t (checksum_stage t now w) c × ((checksum_stage t now w).path ≡ w.path)
  unfolding checksum_stage
  checksum_stage-Holds w c h =
      rw (save_checksum-eq w.path c w.dir h, checksum_stage) (saved-Holds w.path c w.dir h, refl)

  -- A compression that went through: the codec, its output, and the file that is left.
  pub record Compressed (s : Settings) (w : Work) (c : Bytes) (w' : Work) : Type 0 where
    pub ext : String
    pub out : Bytes
    pub codec : codec_suffix t now (t.lower s.algorithm) ≡ some ext
    pub deflated : t.deflate (t.lower s.algorithm) s.level c ≡ some out
    pub named : w'.path ≡ add w.path ext
    pub holds : Holds t w' out

  -- The bytes of the file that takes the place of `n` under a name with a suffix added.
  pub replaced-read :
      (n e : String) (c : Content) (dir : Dir)
      → IsAdded e
      → (read (add n e) (unlink n (write t now (add n e) c dir)) ≡ some c)
        × (read (sha256 n) (unlink n (write t now (add n e) c dir)) ≡ read (sha256 n) dir)
  replaced-read n e c dir a = (
    ground (
      arith,
      read-unlink (add n e) n (write t now (add n e) c dir),
      read-write (add n e) (add n e) c dir,
      add-ne n e a.long,
      eq_refl (add n e),
    ),
    ground (
      arith,
      read-unlink (sha256 n) n (write t now (add n e) c dir),
      read-write (sha256 n) (add n e) c dir,
      add-ne n ".sha256",
      add-ne_suffix n n e ".sha256" a.suf sha256-suffix a.not_sum,
    ),
  )

  compress_file-eq :
      (s : Settings) (n e : String) (c z : Bytes) (dir : Dir)
      → read n dir ≡ some (binary c)
      → codec_suffix t now (t.lower s.algorithm) ≡ some e
      → t.deflate (t.lower s.algorithm) s.level c ≡ some z
      → compress_file t now n s.algorithm s.level dir
        ≡ some (add n e, unlink n (write t now (add n e) (binary z) dir))
  unfolding compress_file
  compress_file-eq s n e c z dir h k d = rw (read_bytes-binary n c dir h, compress_file, k, d) refl

  compress_file-none :
      (s : Settings) (n : String) (c : Bytes) (dir : Dir)
      → read n dir ≡ some (binary c)
      → (codec_suffix t now (t.lower s.algorithm) ≡ none)
        ⊎ (t.deflate (t.lower s.algorithm) s.level c ≡ none)
      → compress_file t now n s.algorithm s.level dir ≡ none
  unfolding compress_file
  compress_file-none s n c dir h k = ground (arith, read_bytes-binary n c dir h)

  -- The backup that a compression leaves.
  compressed_work : Work → String → Bytes → Work
  compressed_work w e z =
      let d =
        unlink (sha256 w.path) (unlink w.path (write t now (add w.path e) (binary z) w.dir)) in
      record {
        path = add w.path e;
        has_sum = true;
        dir = write t now (sha256 (add w.path e)) (words (t.hash z ∷ add w.path e ∷ [])) d;
      }

  read-compressed :
      (w : Work) (e : String) (z : Bytes)
      → IsAdded e
      → read
          (add w.path e)
          (unlink (sha256 w.path) (unlink w.path (write t now (add w.path e) (binary z) w.dir)))
        ≡ some (binary z)
  read-compressed w e z a = ground (
    arith,
    read-unlink (add w.path e) (sha256 w.path)
        (unlink w.path (write t now (add w.path e) (binary z) w.dir)),
    (replaced-read w.path e (binary z) w.dir a).0,
    add-ne_suffix w.path w.path ".sha256" e sha256-suffix a.suf a.sum_not,
  )

  compress_stage-eq :
      (s : Settings) (w : Work) (c z : Bytes) (e : String)
      → Holds t w c
      → s.compression_enabled ≡ true
      → codec_suffix t now (t.lower s.algorithm) ≡ some e
      → t.deflate (t.lower s.algorithm) s.level c ≡ some z
      → IsAdded e
      → compress_stage t now s w ≡ compressed_work w e z
  unfolding compress_stage compressed_work
  compress_stage-eq s w c z e h on k d a =
      let dir =
        unlink (sha256 w.path) (unlink w.path (write t now (add w.path e) (binary z) w.dir)) in
      ground (
        arith,
        compress_file-eq s w.path e c z w.dir h.bytes k d,
        save_checksum-eq (add w.path e) z dir (read-compressed w e z a),
        h.summed,
      )

  compress_file-Compressed :
      (s : Settings) (w : Work) (c z : Bytes) (e : String)
      → codec_suffix t now (t.lower s.algorithm) ≡ some e
      → t.deflate (t.lower s.algorithm) s.level c ≡ some z
      → IsAdded e
      → Compressed s w c (compressed_work w e z)
  unfolding compressed_work
  compress_file-Compressed s w c z e k d a = record {
    ext = e;
    out = z;
    codec = k;
    deflated = d;
    named = refl;
    holds =
        saved-Holds (add w.path e) z
          (unlink (sha256 w.path) (unlink w.path (write t now (add w.path e) (binary z) w.dir)))
          (read-compressed w e z a);
  }

  compress_stage-same :
      (s : Settings) (w : Work) (c : Bytes)
      → Holds t w c
      → (s.compression_enabled ≡ false)
        ⊎ (codec_suffix t now (t.lower s.algorithm) ≡ none)
        ⊎ (t.deflate (t.lower s.algorithm) s.level c ≡ none)
      → compress_stage t now s w ≡ w
  unfolding compress_stage
  compress_stage-same s w c h (inl off) = ground arith
  compress_stage-same s w c h (inr why) =
      ground (arith, compress_file-none s w.path c w.dir h.bytes why)

  -- Compression leaves the backup as it was, or compressed.
  pub compress_stage-Holds :
      (s : Settings) (w : Work) (c : Bytes)
      → Holds t w c
      → (compress_stage t now s w ≡ w) ⊎ Compressed s w c (compress_stage t now s w)
  compress_stage-Holds s w c h = elim (Bool-cases s.compression_enabled) [
    | inr off ↦ inl (compress_stage-same s w c h (inl off))
    | inl on ↦ elim (Option-cases (codec_suffix t now (t.lower s.algorithm))) [
      | inl k ↦ inl (compress_stage-same s w c h (inr (inl k)))
      | inr (e, k) ↦ elim (Option-cases (t.deflate (t.lower s.algorithm) s.level c)) [
        | inl d ↦ inl (compress_stage-same s w c h (inr (inr d)))
        | inr (z, d) ↦
            let a =
              IsCodec-IsAdded (t.lower s.algorithm) e
                (codec_suffix-IsCodec t now (t.lower s.algorithm) e k) in
            inr (
              rw (compress_stage-eq s w c z e h on k d a)
                (compress_file-Compressed s w c z e k d a))
      ]
    ]
  ]
