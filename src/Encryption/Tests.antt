-- ===== src/Encryption/Tests.antt =====
-- An encrypted file of four bytes, under a cipher that puts a tag of one byte before the text.
use dbmanager.Base.{◌≡◌, refl, arith, some, [], ◌∷◌, drop}
use dbmanager.Storage.{Bytes}
use dbmanager.Encryption.{Aead, IsAead, seal}

abbrev pub aead : Aead
aead = record {
  derive = λ password salt. salt;
  encrypt = λ key nonce plain. some (7 ∷ plain);
  decrypt = λ key nonce cipher. some (drop 1 cipher);
  salt = 1 ∷ 2 ∷ 3 ∷ 4 ∷ 5 ∷ 6 ∷ 7 ∷ 8 ∷ 9 ∷ 10 ∷ 11 ∷ 12 ∷ 13 ∷ 14 ∷ 15 ∷ 16 ∷ [];
  nonce = 1 ∷ 2 ∷ 3 ∷ 4 ∷ 5 ∷ 6 ∷ 7 ∷ 8 ∷ 9 ∷ 10 ∷ 11 ∷ 12 ∷ [];
}

pub aead-IsAead : IsAead aead
aead-IsAead = record {
  salt_length = refl;
  nonce_length = refl;
  decrypts = λ key nonce plain cipher h. ground arith;
}

abbrev pub plain : Bytes
plain = 80 ∷ 71 ∷ 68 ∷ 77 ∷ []

abbrev pub sealed : Bytes
sealed =
    1 ∷ 2 ∷ 3 ∷ 4 ∷ 5 ∷ 6 ∷ 7 ∷ 8 ∷ 9 ∷ 10 ∷ 11 ∷ 12 ∷ 13 ∷ 14 ∷ 15 ∷ 16 ∷ 1 ∷ 2 ∷ 3 ∷ 4 ∷ 5 ∷ 6 ∷ 7
    ∷ 8 ∷ 9 ∷ 10 ∷ 11 ∷ 12 ∷ 7 ∷ plain

pub plain_sealed : seal aead "pw" plain ≡ some sealed
unfolding seal
plain_sealed = refl
