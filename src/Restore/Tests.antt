-- ===== src/Restore/Tests.antt =====
-- A backup with encryption, under codecs that put a byte before the text.
use dbmanager.Base.{◌≡◌, refl, true, false, arith, none, some, [], ◌∷◌, inr, drop}
use dbmanager.Base.Text.{add, contains, ends_with}
use dbmanager.Storage.{Bytes}
use dbmanager.Files.{Dir, binary, words, read}
use dbmanager.Encryption.Tests.{aead, aead-IsAead}
use dbmanager.Backups.{sha256}
use dbmanager.Protect.{Tools, Settings, Work, protect, read_bytes}
use dbmanager.Restore.{
  prepare, prepare_plain, verify_checksum, first_word, expected_hash, needs_copy,
}
use dbmanager.Restore.Branches.{IsPlain}
use dbmanager.Restore.Prepare.{checked_bytes, prepare-verifies}
use dbmanager.Restore.Roundtrip.{IsSound, prepared, prepare-protect}

-- The database is its dump; a load of an empty file fails after it has emptied the database.
abbrev pub tools : Tools
tools = record {
  Db = Bytes;
  dump = λ db. some ("shop.sql", db);
  load = λ n b db. elim b [ [] ↦ (none, []) | x ∷ xs ↦ (some true, x ∷ xs) ];
  hash = λ b. elim b [ [] ↦ "e3" | _ ↦ "a1" ];
  lower = λ s. s;
  deflate = λ alg level b. some (9 ∷ b);
  inflate = λ alg z. some (drop 1 z);
  aead = aead;
}

tools-IsSound : IsSound tools
tools-IsSound = record { inflates = λ alg level b z h. ground arith; aead = aead-IsAead }

abbrev pub settings : Settings
settings = record {
  compression_enabled = true;
  algorithm = "gzip";
  level = 6;
  encryption_enabled = true;
  password = some "pw";
  retention = 0;
}

abbrev pub dump_dir : Dir
dump_dir = record { name = "shop.sql"; mtime = 1; size = 2; content = binary (80 ∷ 71 ∷ []) } ∷ []

abbrev pub dumped : Work
dumped = record { path = "shop.sql"; has_sum = false; dir = dump_dir }

shop-IsPlain : IsPlain "shop.sql"
unfolding contains ends_with
shop-IsPlain = record {
  no_gz = refl;
  no_zst = refl;
  no_lz4 = refl;
  no_enc = refl;
  ends_gz = refl;
  ends_zst = refl;
  ends_lz4 = refl;
  ends_enc = refl;
}

pub dumped_bytes : read_bytes "shop.sql" dump_dir ≡ some (80 ∷ 71 ∷ [])
unfolding read_bytes read
dumped_bytes = refl

prepare-protect_example :
    prepared tools settings (protect tools 5 settings dumped) ≡ some ("shop.sql", 80 ∷ 71 ∷ [])
prepare-protect_example =
    prepare-protect tools tools-IsSound 5 settings dumped (80 ∷ 71 ∷ []) shop-IsPlain dumped_bytes

-- The file with its checksum.
abbrev summed_dir : Dir
summed_dir =
    record {
      name = "shop.sql.sha256";
      mtime = 1;
      size = 2;
      content = words ("a1" ∷ "shop.sql" ∷ []);
    }
    ∷ dump_dir

summed : expected_hash (read (sha256 "shop.sql") summed_dir) ≡ some "a1"
unfolding expected_hash read add
summed = refl

shop_in_place : needs_copy "shop.sql" ≡ false
unfolding needs_copy contains ends_with
shop_in_place = refl

shop_prepared :
    prepare tools settings true (some "a1") "shop.sql" summed_dir ≡ some ("shop.sql", 80 ∷ 71 ∷ [])
unfolding prepare needs_copy contains ends_with prepare_plain verify_checksum first_word read_bytes
    read add
shop_prepared = refl

prepare-verifies_example :
    (b : Bytes) × (checked_bytes tools settings "shop.sql" summed_dir ≡ some b)
    × (tools.hash b ≡ "a1")
prepare-verifies_example =
    prepare-verifies tools settings "shop.sql" "a1" summed_dir ("shop.sql", 80 ∷ 71 ∷ []) summed
      (inr shop_in_place) shop_prepared
