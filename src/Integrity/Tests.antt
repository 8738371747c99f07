-- ===== src/Integrity/Tests.antt =====
-- The dump of Restore/Tests, protected and checked.
use dbmanager.Base.{
  ℕ, String, ◌≡◌, ◌≢◌, eq_iff, refl, false, true, arith, Option, none, some, List, [], ◌∷◌, length,
  ◌==◌, if◌then◌else◌,
}
use dbmanager.Base.Text.{add, ends_with}
use dbmanager.Storage.{Bytes}
use dbmanager.Files.{binary, words, read}
use dbmanager.Encryption.Tests.{aead-IsAead, plain, sealed, plain_sealed}
use dbmanager.Config.{get_database}
use dbmanager.Config.Tests.{manager}
use dbmanager.Protect.{Tools, Work, protect, usable_password}
use dbmanager.Protect.Sealed.{Encrypted}
use dbmanager.Restore.Tests.{tools, settings, dumped, dumped_bytes}
use dbmanager.Migration.Tests.{put, holding}
use dbmanager.Integrity.{verify_backup_integrity}
use dbmanager.Integrity.Remote.{bucket_of, verify_s3}
use dbmanager.Restore.{World}
use dbmanager.Integrity.Sealed.{IsStored, verify_s3-Encrypted}
use dbmanager.Integrity.Protected.{IsFull, verify-protect}

tools-IsFull : IsFull tools
tools-IsFull alg level b z h = ground arith

dump_not_enc : ends_with ".enc" dumped.path ≡ false
unfolding ends_with
dump_not_enc = refl

verify-protect_example :
    let w' = protect tools 5 settings dumped in
    verify_backup_integrity tools settings w'.path w'.dir ≡ some true
verify-protect_example =
    verify-protect tools 5 settings dumped (80 ∷ 71 ∷ []) aead-IsAead tools-IsFull dump_not_enc
      (omega arith) dumped_bytes

-- An encrypted backup of the database of Config/Tests in its bucket; the hash tells its bytes from
-- those before the encryption.
abbrev telling : Tools
telling = record tools { hash = λ b. if length b == 4 then "a1" else "b2" }

abbrev before_seal : Work
before_seal = record { path = "shop.sql"; has_sum = true; dir = [] }

abbrev after_seal : Work
after_seal = record {
  path = "shop.sql.enc";
  has_sum = true;
  dir =
      record { name = "shop.sql.enc"; mtime = 5; size = 0; content = binary sealed }
      ∷ record {
        name = "shop.sql.enc.sha256";
        mtime = 5;
        size = 0;
        content = words ("a1" ∷ "shop.sql" ∷ []);
      }
      ∷ [];
}

after_seal-Encrypted : Encrypted telling 5 settings before_seal plain after_seal
unfolding add read usable_password
after_seal-Encrypted = record {
  password = "pw";
  out = sealed;
  usable = refl;
  sealed = plain_sealed;
  named = refl;
  bytes = refl;
  sum = refl;
}

abbrev encode : List String → Bytes
encode ws = 97 ∷ []

abbrev decode : Bytes → List String
decode b = "a1" ∷ "shop.sql" ∷ []

abbrev stored : ℕ → String → Option Bytes
stored =
    put 1 "backups/4/shop.sql.enc" (some sealed)
      (put 1 "backups/4/shop.sql.enc.sha256" (some (encode [])) (λ i k. none))

stored-IsStored :
    IsStored telling
      (holding [])
      encode
      decode
      1
      "backups/4/shop.sql.enc"
      sealed
      ("a1" ∷ "shop.sql" ∷ [])
      stored
unfolding add
stored-IsStored = record {
  info = (none, refl);
  file = refl;
  sum_info = (none, refl);
  sum_file = refl;
}

shop_bucket : bucket_of telling (holding []) decode (some 4) manager stored ≡ some 1
unfolding bucket_of get_database
shop_bucket = refl

false-ne-true : false ≢ true
false-ne-true e = cc

hashes_differ : telling.hash sealed ≢ telling.hash plain
hashes_differ e = false-ne-true ((eq_iff "b2" "a1").1 e)

verify_s3-Encrypted_example :
    verify_s3 telling (holding []) decode (some 4) manager "backups/4/shop.sql.enc" stored
    ≡ some false
unfolding after_seal-Encrypted
verify_s3-Encrypted_example =
    verify_s3-Encrypted telling (holding []) encode decode 5 settings before_seal after_seal plain
      after_seal-Encrypted (some 4) manager 1 "backups/4/shop.sql.enc" stored shop_bucket
      stored-IsStored refl hashes_differ

-- A compressed backup that has lost its first bytes.
abbrev damaged_world : World telling
damaged_world = record {
  db = [];
  dir =
      record { name = "shop.sql.gz"; mtime = 5; size = 0; content = binary (9 ∷ 80 ∷ []) }
      ∷ record {
        name = "shop.sql.gz.sha256";
        mtime = 5;
        size = 0;
        content = words ("a1" ∷ "shop.sql.gz" ∷ []);
      }
      ∷ [];
}
