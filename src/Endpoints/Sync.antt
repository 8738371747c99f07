-- ===== src/Endpoints/Sync.antt =====
-- `sync_backups` of backend/api/routers/backups.py: the files of one directory and the objects of one
-- target under the prefix of the database are brought together. A set of names is a list without
-- repetition; Python goes through a set in no given order, and `order` is the one that it takes.
use dbmanager.Base.{
  ℕ, suc, String, Bool, Option, none, some, List, [], ◌∷◌, map, ◌||◌, not, any, keep, str_eq,
  length, if◌then◌else◌,
}
use dbmanager.Base.Text.{add, basename, ends_with}
use dbmanager.Base.Outcome.{Reply, ok, http}
use dbmanager.Storage.{Object}
use dbmanager.Storage.Targets.{Targets}
use dbmanager.Files.{binary, Dir, put_file}
use dbmanager.Backups.{Backup, patterns, local_backups}
use dbmanager.Protect.{read_bytes}
use dbmanager.Endpoints.{App, get_s3_storage}

abbrev pub has_name : String → List String → Bool
has_name n ns = any (str_eq n) ns

-- The set of the elements of a list.
unfoldable pub names : List String → List String
names [] = []
names (n ∷ ns) = let rest = names ns in if has_name n rest then rest else n ∷ rest

-- `a - b`
abbrev pub minus : List String → List String → List String
minus a b = keep (λ n. not (has_name n b)) a

pub record SyncResult : Type 0 where
  pub uploaded : ℕ
  pub downloaded : ℕ
  pub local_only : ℕ
  pub s3_only : ℕ

-- The number of transfers, the directory and the targets.
pub record Transfer (s : Targets) : Type 0 where
  pub count : ℕ
  pub dir : Dir
  pub world : s.World

module _ (s : Targets) (i : ℕ) (prefix : String) where
  -- The body of the first loop; `none` is an exception, which ends the handler. A file that is not
  -- there raises one.
  unfoldable pub upload_file : String → Transfer s → Option (Transfer s)
  upload_file n x = elim (read_bytes n x.dir) [
    | none ↦ none
    | some b ↦
        let (sent, w) = s.upload i b (add prefix n) x.world in
        elim sent [
          | none ↦ none
          | some done ↦ some (record x { count = if done then suc x.count else x.count; world = w })
        ]
  ]

  unfoldable pub upload_files : List String → Transfer s → Option (Transfer s)
  upload_files [] x = some x
  upload_files (n ∷ ns) x = elim (upload_file n x) [ none ↦ none | some x' ↦ upload_files ns x' ]

  -- The body of the second loop.
  unfoldable pub download_file : ℕ → String → Transfer s → Option (Transfer s)
  download_file now n x = elim (s.download i (add prefix n) x.world) [
    | none ↦ none
    | some got ↦ elim got [
      | none ↦ some x
      | some b ↦ some (record x {
        count = suc x.count;
        dir =
            put_file (record { name = n; mtime = now; size = length b; content = binary b }) x.dir;
      })
    ]
  ]

  unfoldable pub download_files : ℕ → List String → Transfer s → Option (Transfer s)
  download_files now [] x = some x
  download_files now (n ∷ ns) x = elim (download_file now n x) [
    | none ↦ none
    | some x' ↦ download_files now ns x'
  ]

abbrev pub local_names : Dir → List String
local_names dir = names (map (λ (b : Backup). b.filename) (local_backups patterns dir))

abbrev pub s3_names : List Object → List String
s3_names os =
    names (map (λ (o : Object). basename o.key) (keep (λ o. not (ends_with ".sha256" o.key)) os))

abbrev pub prefix_of : Targets → ℕ → String
prefix_of s db = add "backups/" (add (s.str db) "/")

module _ (lower : String → String) (s : Targets) (order : List String → List String) where
  -- An exception of the listing or of a transfer is no `HTTPException`: the server answers 500. What
  -- has been transferred until then stays, which is left out here.
  unfoldable pub sync_backups :
      ℕ → String → ℕ → Dir → App s → Option (Reply (SyncResult × Dir × s.World))
  sync_backups now action db dir app =
      let prefix = prefix_of s db in
      let up = str_eq action "upload" || str_eq action "full" in
      let down = str_eq action "download" || str_eq action "full" in
      if not (up || down) then some (http 400) else elim (get_s3_storage lower s db app) [
        | http c ↦ some (http c)
        | ok i ↦ elim (s.list_files i prefix app.remote) [
          | none ↦ none
          | some os ↦
              let only_local = minus (local_names dir) (s3_names os) in
              let only_s3 = minus (s3_names os) (local_names dir) in
              elim (upload_files s i prefix (if up then order only_local else [])
                (record { count = 0; dir = dir; world = app.remote })) [
                  | none ↦ none
                  | some x ↦
                      elim (download_files s i prefix now (if down then order only_s3 else [])
                        (record { count = 0; dir = x.dir; world = x.world })) [
                          | none ↦ none
                          | some y ↦ some (
                              ok (
                                record {
                                  uploaded = x.count;
                                  downloaded = y.count;
                                  local_only = length only_local;
                                  s3_only = length only_s3;
                                },
                                y.dir,
                                y.world,
                              ))
                        ]
                ]
        ]
      ]
