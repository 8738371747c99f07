-- ===== src/Encryption.antt =====
-- backend/core/encryption.py: the layout of an encrypted file, 16 bytes of salt, 12 of nonce, then
-- the ciphertext with its tag. AES-GCM, PBKDF2 and `os.urandom` are parameters.
pub mod Tests
use dbmanager.Base.{
  ℕ, zero, suc, String, ◌≡◌, refl, Option, none, some, [], ◌∷◌, ◌++◌, ◌&&◌, not, ◌==◌, arith,
  length, take, drop, Option-cases, inl, inr, if◌then◌else◌,
}
use dbmanager.Storage.{Bytes}

pub record Aead : Type 0 where
  pub derive : String → Bytes → Bytes
  pub encrypt : Bytes → Bytes → Bytes → Option Bytes
  pub decrypt : Bytes → Bytes → Bytes → Option Bytes
  pub salt : Bytes
  pub nonce : Bytes

-- The lengths that the code asks `os.urandom` for, and that AES-GCM decrypts what it encrypted.
pub record IsAead (a : Aead) : Type 0 where
  pub salt_length : length a.salt ≡ 16
  pub nonce_length : length a.nonce ≡ 12
  pub decrypts :
      (key nonce plain cipher : Bytes)
      → a.encrypt key nonce plain ≡ some cipher
      → a.decrypt key nonce cipher ≡ some plain

module _ (a : Aead) where
  -- what `encrypt_file` writes for the bytes that it reads
  unfoldable pub seal : String → Bytes → Option Bytes
  seal password plain = elim (a.encrypt (a.derive password a.salt) a.nonce plain) [
    | none ↦ none
    | some cipher ↦ some (a.salt ++ (a.nonce ++ cipher))
  ]

  -- what `decrypt_file` writes for the bytes that it reads
  unfoldable pub unseal : String → Bytes → Option Bytes
  unseal password file =
      let salt = take 16 file in
      let nonce = take 12 (drop 16 file) in
      let cipher = drop 12 (drop 16 file) in
      if not (length salt == 16 && length nonce == 12)
      then none
      else a.decrypt (a.derive password salt) nonce cipher

take-append : (xs ys : Bytes) (n : ℕ) → length xs ≡ n → take n (xs ++ ys) ≡ xs
take-append [] ys zero h = refl
take-append [] ys (suc n) h = absurd (omega arith)
take-append (x ∷ xs) ys zero h = absurd (omega arith)
take-append (x ∷ xs) ys (suc n) h = ground (arith, take-append xs ys n)

drop-append : (xs ys : Bytes) (n : ℕ) → length xs ≡ n → drop n (xs ++ ys) ≡ ys
drop-append [] ys zero h = refl
drop-append [] ys (suc n) h = absurd (omega arith)
drop-append (x ∷ xs) ys zero h = absurd (omega arith)
drop-append (x ∷ xs) ys (suc n) h = ground (arith, drop-append xs ys n)

-- Decryption with the same password gives back the bytes that were encrypted.
pub unseal-seal :
    (a : Aead) (password : String) (plain file : Bytes)
    → IsAead a
    → seal a password plain ≡ some file
    → unseal a password file ≡ some plain
unfolding seal unseal
unseal-seal a password plain file h e =
    elim (Option-cases (a.encrypt (a.derive password a.salt) a.nonce plain)) [
      | inl f ↦ absurd (ground arith)
      | inr (cipher, f) ↦ ground (
        arith,
        h.salt_length,
        h.nonce_length,
        h.decrypts (a.derive password a.salt) a.nonce plain cipher f,
        take-append a.salt (a.nonce ++ cipher) 16,
        drop-append a.salt (a.nonce ++ cipher) 16,
        take-append a.nonce cipher 12,
        drop-append a.nonce cipher 12,
      )
    ]
