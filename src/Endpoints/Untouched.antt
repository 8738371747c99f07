-- ===== src/Endpoints/Untouched.antt =====
-- A synchronisation overwrites nothing.
use dbmanager.Base.{
  ℕ, String, ◌≡◌, Bool, true, false, some, List, [], ◌||◌, All, arith, str_eq, eq_iff, Option-cases,
  inl, inr, if◌then◌else◌,
}
use dbmanager.Base.Text.{add}
use dbmanager.Base.Outcome.{ok}
use dbmanager.Storage.{Object}
use dbmanager.Storage.Targets.{Targets, IsTargets}
use dbmanager.Files.{Dir, read}
use dbmanager.Endpoints.{App, get_s3_storage}
use dbmanager.Endpoints.Sync.{
  has_name, minus, SyncResult, Transfer, upload_files, download_files, local_names, s3_names,
  prefix_of, sync_backups,
}
use dbmanager.Endpoints.Transfers.{
  keys_differ, minus-out, All-of, All-if, upload_files-dir, upload_files-other,
  download_files-other, download_files-world,
}

module _ (lower : String → String) (s : Targets) (lawful : IsTargets s)
    (order : List String → List String)
    (order-sound : (ns : List String) (m : String)
      → has_name m (order ns) ≡ true
      → has_name m ns ≡ true) where
  -- The names of a difference, in any order, differ from a name that was taken off.
  others :
      (c : Bool) (a b : List String) (n : String)
      → has_name n b ≡ true
      → All (λ m. str_eq m n ≡ false) (if c then order (minus a b) else [])
  others c a b n h =
      All-if (λ m. str_eq m n ≡ false) c (order (minus a b))
        (All-of (order (minus a b))
          (λ m k. ground (arith, order-sound (minus a b) m k, minus-out a b m, eq_iff m n)))

  other_keys :
      (c : Bool) (p : String) (a b : List String) (n : String)
      → has_name n b ≡ true
      → All (λ m. str_eq (add p m) (add p n) ≡ false) (if c then order (minus a b) else [])
  other_keys c p a b n h =
      All-if (λ m. str_eq (add p m) (add p n) ≡ false) c (order (minus a b))
        (All-of (order (minus a b))
          (λ m k. keys_differ p m n b (minus-out a b m (order-sound (minus a b) m k)) h))

  -- A synchronisation overwrites nothing. When it has gone through, a backup that the directory
  -- listed reads there as before, and one that the target listed is on it as before, where
  -- the order that Python goes through a set in adds no name.
  pub sync_backups-untouched :
      (now db i : ℕ) (action m k : String) (dir dir' : Dir) (app : App s) (os : List Object)
      (n : SyncResult) (w : s.World)
      → get_s3_storage lower s db app ≡ ok i
      → s.list_files i (prefix_of s db) app.remote ≡ some os
      → sync_backups lower s order now action db dir app ≡ some (ok (n, dir', w))
      → has_name m (local_names dir) ≡ true
      → has_name k (s3_names os) ≡ true
      → (read m dir' ≡ read m dir)
        × (s.download i (add (prefix_of s db) k) w
            ≡ s.download i (add (prefix_of s db) k) app.remote)
  unfolding sync_backups
  sync_backups-untouched now db i action m k dir dir' app os n w e f g h h' =
      let prefix = prefix_of s db in
      let up = str_eq action "upload" || str_eq action "full" in
      let down = str_eq action "download" || str_eq action "full" in
      let ups = if up then order (minus (local_names dir) (s3_names os)) else [] in
      let downs = if down then order (minus (s3_names os) (local_names dir)) else [] in
      let start : Transfer s = record { count = 0; dir = dir; world = app.remote } in
      elim (Option-cases (upload_files s i prefix ups start)) [
        | inl e' ↦ absurd (ground arith)
        | inr (x, e') ↦
            let again : Transfer s = record { count = 0; dir = x.dir; world = x.world } in
            elim (Option-cases (download_files s i prefix now downs again)) [
              | inl l ↦ absurd (ground arith)
              | inr (y, l) ↦
                  let end : (dir' ≡ y.dir) × (w ≡ y.world) = ground arith in
                  let new = upload_files-dir s lawful i prefix ups start x e' in
                  let kept =
                    download_files-other s lawful i prefix now downs m again y
                      (others down (s3_names os) (local_names dir) m h) l in
                  let stays =
                    upload_files-other s lawful i prefix ups start x i (add prefix k)
                      (other_keys up prefix (local_names dir) (s3_names os) k h') e' in
                  (
                    ground arith,
                    ground (arith, download_files-world s lawful i prefix now downs again y l),
                  )
            ]
      ]
