-- ===== src/Protect/Sealed.antt =====
-- What encryption leaves: the encrypted bytes, and the checksum file of the bytes before.
use text.Mathlib.TextPositions.{eq_refl}
use mathlib.Core.Path.{subst}
use dbmanager.Base.{
  ℕ, String, ◌≡◌, refl, sym, true, false, Bool-cases, Option-cases, inl, inr, ◌⊎◌, none, some, [],
  ◌∷◌, arith,
}
use dbmanager.Base.Text.{add}
use dbmanager.Storage.{Bytes}
use dbmanager.Files.{binary, words, Dir, read, unlink, rename-read}
use dbmanager.Encryption.{seal}
use dbmanager.Backups.{sha256}
use dbmanager.Protect.{Tools, Settings, Work, write, usable_password, encrypt_file, encrypt_stage}
use dbmanager.Protect.Names.{enc-IsAdded, sha256-suffix, add-ne, add-ne_suffix}
use dbmanager.Protect.Compression.{Holds, read_bytes-binary, replaced-read}

module _ (t : Tools) (now : ℕ) where
  -- An encryption that went through. The checksum is that of the bytes before the encryption.
  pub record Encrypted (s : Settings) (w : Work) (c : Bytes) (w' : Work) : Type 0 where
    pub password : String
    pub out : Bytes
    pub usable : usable_password s ≡ some password
    pub sealed : seal t.aead password c ≡ some out
    pub named : w'.path ≡ add w.path ".enc"
    pub bytes : read w'.path w'.dir ≡ some (binary out)
    pub sum : read (sha256 w'.path) w'.dir ≡ some (words (t.hash c ∷ w.path ∷ []))

  encrypt_file-eq :
      (n password : String) (c f : Bytes) (dir : Dir)
      → read n dir ≡ some (binary c)
      → seal t.aead password c ≡ some f
      → encrypt_file t now n password dir
        ≡ some (add n ".enc", unlink n (write t now (add n ".enc") (binary f) dir))
  unfolding encrypt_file
  encrypt_file-eq n password c f dir h k = ground (arith, read_bytes-binary n c dir h)

  encrypt_file-none :
      (n password : String) (c : Bytes) (dir : Dir)
      → read n dir ≡ some (binary c)
      → seal t.aead password c ≡ none
      → encrypt_file t now n password dir ≡ none
  unfolding encrypt_file
  encrypt_file-none n password c dir h k = ground (arith, read_bytes-binary n c dir h)

  encrypt_stage-same :
      (s : Settings) (w : Work) (c : Bytes)
      → Holds t w c
      → (s.encryption_enabled ≡ false)
        ⊎ (usable_password s ≡ none)
        ⊎ ((p : String) × (usable_password s ≡ some p) × (seal t.aead p c ≡ none))
      → encrypt_stage t now s w ≡ w
  unfolding encrypt_stage
  encrypt_stage-same s w c h (inl off) = ground arith
  encrypt_stage-same s w c h (inr (inl u)) = ground arith
  encrypt_stage-same s w c h (inr (inr (p, u, k))) =
      ground (arith, encrypt_file-none w.path p c w.dir h.bytes k)

  encrypt_stage-Encrypted :
      (s : Settings) (w : Work) (c f : Bytes) (p : String)
      → Holds t w c
      → s.encryption_enabled ≡ true
      → usable_password s ≡ some p
      → seal t.aead p c ≡ some f
      → Encrypted s w c (encrypt_stage t now s w)
  unfolding encrypt_stage
  encrypt_stage-Encrypted s w c f p h on u k =
      let n = w.path in
      let d = unlink n (write t now (add n ".enc") (binary f) w.dir) in
      let r = replaced-read t now n ".enc" (binary f) w.dir enc-IsAdded in
      let (d', e, reads) =
        rename-read (sha256 n) (sha256 (add n ".enc")) (words (t.hash c ∷ n ∷ [])) d
          (rw r.1 h.sum) in
      let value : encrypt_stage t now s w
          ≡ record { path = add n ".enc"; has_sum = true; dir = d' } =
        ground (arith, encrypt_file-eq n p c f w.dir h.bytes k, e, h.summed) in
      subst (λ x. Encrypted s w c x) (sym value)
        (record {
          password = p;
          out = f;
          usable = u;
          sealed = k;
          named = refl;
          bytes = ground (
            arith,
            reads (add n ".enc"),
            r.0,
            add-ne (add n ".enc") ".sha256",
            add-ne_suffix n n ".sha256" ".enc" sha256-suffix enc-IsAdded.suf enc-IsAdded.sum_not,
          );
          sum = ground (arith, reads (sha256 (add n ".enc")), eq_refl (sha256 (add n ".enc")));
        })

  -- Encryption leaves the backup as it was, or encrypted.
  pub encrypt_stage-Holds :
      (s : Settings) (w : Work) (c : Bytes)
      → Holds t w c
      → (encrypt_stage t now s w ≡ w) ⊎ Encrypted s w c (encrypt_stage t now s w)
  encrypt_stage-Holds s w c h = elim (Bool-cases s.encryption_enabled) [
    | inr off ↦ inl (encrypt_stage-same s w c h (inl off))
    | inl on ↦ elim (Option-cases (usable_password s)) [
      | inl u ↦ inl (encrypt_stage-same s w c h (inr (inl u)))
      | inr (p, u) ↦ elim (Option-cases (seal t.aead p c)) [
        | inl k ↦ inl (encrypt_stage-same s w c h (inr (inr (p, u, k))))
        | inr (f, k) ↦ inr (encrypt_stage-Encrypted s w c f p h on u k)
      ]
    ]
  ]
