-- ===== src/Upload/Tests.antt =====
-- An encrypted backup with its checksum, on the targets of Migration/Tests.
use dbmanager.Base.{ℕ, String, ◌≡◌, refl, true, false, none, some, List, [], ◌∷◌}
use dbmanager.Base.Text.{add}
use dbmanager.Base.Sort.{sort_desc, insert_desc}
use dbmanager.Storage.{Bytes, Object}
use dbmanager.Files.{Dir, binary, words, read}
use dbmanager.Backups.{sha256}
use dbmanager.Protect.{Work}
use dbmanager.Migration.Tests.{holding, holding-IsTargets, put}
use dbmanager.Upload.{upload_all, retain_on}
use dbmanager.Upload.Kept.{Accepts, IsOn, upload_all-IsOn}
use dbmanager.Upload.Retained.{Apart, retention_of_one-loses}

abbrev encode : List String → Bytes
encode ws = 104 ∷ []

abbrev sealed_dir : Dir
sealed_dir =
    record { name = "shop.sql.enc"; mtime = 5; size = 3; content = binary (1 ∷ 2 ∷ 3 ∷ []) }
    ∷ record {
      name = "shop.sql.enc.sha256";
      mtime = 5;
      size = 2;
      content = words ("a1" ∷ "shop.sql" ∷ []);
    }
    ∷ []

abbrev work : Work
work = record { path = "shop.sql.enc"; has_sum = true; dir = sealed_dir }

file_there : read work.path sealed_dir ≡ some (binary (1 ∷ 2 ∷ 3 ∷ []))
unfolding read
file_there = refl

sum_there : read (sha256 work.path) sealed_dir ≡ some (words ("a1" ∷ "shop.sql" ∷ []))
unfolding read add
sum_there = refl

holding-Accepts : (os : List Object) (i : ℕ) → Accepts (holding os) i
holding-Accepts os i = record { there = λ w. refl; takes = λ b k w. refl }

upload_all-IsOn_example :
    IsOn
      (holding [])
      (holding-IsTargets [])
      encode
      1
      work
      (binary (1 ∷ 2 ∷ 3 ∷ []))
      (words ("a1" ∷ "shop.sql" ∷ []))
      refl
      file_there
      sum_there
      3
      (upload_all (holding []) encode 1 work (2 ∷ 3 ∷ []) (λ i k. none))
upload_all-IsOn_example =
    upload_all-IsOn (holding []) (holding-IsTargets []) encode 1 work (binary (1 ∷ 2 ∷ 3 ∷ []))
      (words ("a1" ∷ "shop.sql" ∷ [])) refl file_there sum_there 3 (2 ∷ 3 ∷ []) (λ i k. none)
      (holding-Accepts [] 3) refl

abbrev object : String → ℕ → Object
object k n = record { key = k; size = 3; last_modified = n }

abbrev objects : List Object
objects =
    object "backups/1/b.sql" 7 ∷ object "backups/1/b.sql.sha256" 8 ∷ object "backups/1/a.sql" 2 ∷ []

objects_sorted :
    sort_desc (λ (x : Object). x.last_modified) objects
    ≡ object "backups/1/b.sql.sha256" 8
      ∷ object "backups/1/b.sql" 7
      ∷ object "backups/1/a.sql" 2
      ∷ []
unfolding sort_desc insert_desc
objects_sorted = refl

named : (object "backups/1/b.sql.sha256" 8).key ≡ sha256 (object "backups/1/b.sql" 7).key
unfolding add
named = refl

others-Apart :
    Apart
      (holding objects)
      (holding-IsTargets objects)
      encode
      (λ f. false)
      1
      "backups/1/b.sql"
      (object "backups/1/a.sql" 2)
unfolding add
others-Apart = (refl, refl)

retention_of_one-loses_example :
    (holding objects).download 1 "backups/1/b.sql" (
      retain_on
        (holding objects)
        encode
        (λ f. false)
        1
        1
        1
        (put 1 "backups/1/b.sql" (some (7 ∷ [])) (λ i k. none)))
    ≡ some none
retention_of_one-loses_example =
    retention_of_one-loses (holding objects) (holding-IsTargets objects) encode (λ f. false) 1 1
      (put 1 "backups/1/b.sql" (some (7 ∷ [])) (λ i k. none)) objects
      (object "backups/1/a.sql" 2 ∷ []) (object "backups/1/b.sql.sha256" 8)
      (object "backups/1/b.sql" 7) refl refl objects_sorted named refl refl (others-Apart, tt)
