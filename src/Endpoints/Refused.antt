-- ===== src/Endpoints/Refused.antt =====
-- The backups that the handlers do not take: `_resolve_local_backup` of backend/api/routers/backups.py.
use dbmanager.Base.{
  ℕ, String, ◌≡◌, refl, Bool, true, false, Option, List, [], ◌∷◌, any, arith, str_eq, eq_iff, ◌⊎◌,
  inl, inr, Bool-cases, Option-cases, is_some, text_is_empty,
}
use Prim.Native.Char.{code}
use dbmanager.Base.Text.{ends_with}
use dbmanager.Base.Outcome.{http}
use dbmanager.Users.{User}
use dbmanager.Config.{get_database}
use dbmanager.Storage.{Bytes}
use dbmanager.Storage.Targets.{Targets}
use dbmanager.Protect.{Tools}
use dbmanager.Endpoints.{App, start_restore, verify_backup, delete_local, delete_backup}
use dbmanager.Endpoints.Paths.{FilePath, Disk, System, allowed_backup_exts, resolve_local_backup}

last_code : ℕ → String → ℕ
last_code n String.[] = n
last_code n (String.◌∷◌ c s) = last_code (code c) s

not_empty : (e : String) → text_is_empty e ≡ false → str_eq e String.[] ≡ true → ⊥
not_empty e ne h = let k : text_is_empty e ≡ true = rw ((eq_iff e String.[]).0 h) in ground arith

-- A text ends with the last character of each of its ends.
ends_with-last :
    (n : ℕ) (e s : String)
    → text_is_empty e ≡ false
    → ends_with e s ≡ true
    → last_code n s ≡ last_code 0 e
unfolding ends_with last_code
ends_with-last n e String.[] ne h = absurd (not_empty e ne h)
ends_with-last n e (String.◌∷◌ c s) ne h = elim (Bool-cases (str_eq e (String.◌∷◌ c s))) [
  | inl same ↦ rw ((eq_iff e (String.◌∷◌ c s)).0 same)
  | inr other ↦ ends_with-last (code c) e s ne (ground arith)
]

-- The suffixes of the listed backups that the handlers do not know.
abbrev pub refused_exts : List String
refused_exts = ".bak" ∷ ".enc" ∷ ".zst" ∷ ".lz4" ∷ []

ends_with-last_of :
    (f e : String) → text_is_empty e ≡ false → ends_with e f ≡ true → last_code 0 f ≡ last_code 0 e
ends_with-last_of f e = ends_with-last 0 e f

allowed-last :
    (f : String)
    → any (λ e. ends_with e f) allowed_backup_exts ≡ true
    → (last_code 0 f ≡ b'z') ⊎ (last_code 0 f ≡ b'l') ⊎ (last_code 0 f ≡ b'p')
unfolding last_code
allowed-last f h = ground (
  arith,
  ends_with-last_of f ".sql.gz" refl,
  ends_with-last_of f ".dump.gz" refl,
  ends_with-last_of f ".tar.gz" refl,
  ends_with-last_of f ".sql" refl,
  ends_with-last_of f ".dump" refl,
)

not_allowed :
    (f : String)
    → any (λ e. ends_with e f) refused_exts ≡ true
    → any (λ e. ends_with e f) allowed_backup_exts ≡ false
unfolding last_code
not_allowed f h = elim (Bool-cases (any (λ e. ends_with e f) allowed_backup_exts)) [
  | inr no_one ↦ no_one
  | inl allowed ↦ absurd (
      ground (
        arith,
        allowed-last f allowed,
        ends_with-last_of f ".bak" refl,
        ends_with-last_of f ".enc" refl,
        ends_with-last_of f ".zst" refl,
        ends_with-last_of f ".lz4" refl,
      ))
]

module _ (sys : System) (f : String) (ends : any (λ e. ends_with e f) refused_exts ≡ true) where
  resolve_local_backup-refused : resolve_local_backup sys f ≡ http 400
  unfolding resolve_local_backup
  resolve_local_backup-refused = ground (arith, not_allowed f ends)

  -- A local backup that is encrypted, compressed with zstd or lz4, or a `.bak` file of SQL Server can
  -- be neither deleted nor verified nor restored: the handlers answer each request for it with 400 and
  -- change nothing. The restore names a database that is there.
  pub listed_backup-refused :
      (lower : String → String) (s : Targets) (t : Tools) (decode : Bytes → List String)
      (check_local : FilePath → Disk → Option Bool) (error uuid : String) (current : User)
      (db_id : Option ℕ) (now db : ℕ) (skip : Bool) (app : App s)
      → is_some (get_database db app.manager) ≡ true
      → (delete_backup lower s sys error current f "local" db_id app ≡ (http 400, app))
        × (verify_backup lower s t decode sys check_local f "local" db_id app ≡ http 400)
        × (start_restore lower s sys current uuid now db
              (record { backup_file = f; location = "local"; skip_safety_snapshot = skip })
              app
            ≡ (http 400, app))
  unfolding delete_backup delete_local verify_backup start_restore
  listed_backup-refused lower s t decode check_local error uuid current db_id now db skip app
        there =
      (
        ground (arith, resolve_local_backup-refused),
        ground (arith, resolve_local_backup-refused),
        elim (Option-cases (get_database db app.manager)) [
          | inl e ↦ absurd (ground arith)
          | inr (cfg, e) ↦ ground (arith, resolve_local_backup-refused)
        ],
      )
