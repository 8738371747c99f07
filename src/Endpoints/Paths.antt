-- ===== src/Endpoints/Paths.antt =====
-- The paths of backend/api/routers/backups.py: `_resolve_local_backup` and the deletion of a file. A
-- path is the list of its components, and the file system a function of the path.
use dbmanager.Base.{
  String, ◌≡◌, refl, Bool, true, false, Option, none, some, List, [], ◌∷◌, ◌&&◌, ◌||◌, not, any,
  str_eq, eq_iff, text_is_empty, ◌==◌, ◌⊎◌, inl, inr, arith, if◌then◌else◌,
}
use Prim.Native.Char.{code}
use dbmanager.Base.Text.{ends_with}
use dbmanager.Base.Outcome.{Reply, ok, http}
use dbmanager.Backups.{sha256}

pub data Node : Type 0 where
  regular directory : Node

abbrev pub FilePath : Type 0
FilePath = List String

abbrev pub Disk : Type 0
Disk = FilePath → Option Node

unfoldable pub same_path : FilePath → FilePath → Bool
same_path [] [] = true
same_path [] (y ∷ ys) = false
same_path (x ∷ xs) [] = false
same_path (x ∷ xs) (y ∷ ys) = str_eq x y && same_path xs ys

-- `path.relative_to(root)` raises exactly when this does not hold.
unfoldable pub is_under : FilePath → FilePath → Bool
is_under [] p = true
is_under (r ∷ rs) [] = false
is_under (r ∷ rs) (x ∷ xs) = str_eq r x && is_under rs xs

-- `path.with_name(path.name + ".sha256")`
unfoldable pub with_sum : FilePath → FilePath
with_sum [] = []
with_sum (x ∷ xs) = let rest = with_sum xs in elim xs [ [] ↦ sha256 x ∷ [] | y ∷ ys ↦ x ∷ rest ]

abbrev pub allowed_backup_exts : List String
allowed_backup_exts = ".sql.gz" ∷ ".dump.gz" ∷ ".tar.gz" ∷ ".sql" ∷ ".dump" ∷ []

unfoldable pub has_nul : String → Bool
has_nul String.[] = false
has_nul (String.◌∷◌ c s) = code c == 0 || has_nul s

unfoldable pub removed : FilePath → Disk → Disk
removed p disk q = if same_path p q then none else disk q

-- What the operating system does: the resolution of a path, with `none` for an exception, and the
-- files that it lets the process delete.
pub record System : Type 0 where
  pub resolve : String → Option FilePath
  pub may_delete : FilePath → Bool
  pub backup_root : FilePath

module _ (sys : System) where
  unfoldable pub resolve_local_backup : String → Reply FilePath
  resolve_local_backup f =
      if text_is_empty f || has_nul f
      then http 400
      else if not (any (λ e. ends_with e f) allowed_backup_exts)
      then http 400
      else elim (sys.resolve f) [
        | none ↦ http 400
        | some p ↦ if is_under sys.backup_root p then ok p else http 400
      ]

  -- `path.unlink()`, which raises for a directory
  unfoldable pub unlink_path : FilePath → Disk → Option Disk
  unlink_path p disk = elim (disk p) [
    | none ↦ none
    | some n ↦ elim n [
      | directory ↦ none
      | regular ↦ if sys.may_delete p then some (removed p disk) else none
    ]
  ]

  -- The `try` block of `delete_backup`: whether it went through, and the files that it leaves.
  unfoldable pub unlink_backup : FilePath → Disk → Bool × Disk
  unlink_backup p disk = elim (unlink_path p disk) [
    | none ↦ (false, disk)
    | some d ↦ elim (d (with_sum p)) [
      | none ↦ (true, d)
      | some _ ↦ elim (unlink_path (with_sum p) d) [ none ↦ (false, d) | some d' ↦ (true, d') ]
    ]
  ]

pub same_path-eq : (p q : FilePath) → same_path p q ≡ true → p ≡ q
unfolding same_path
same_path-eq [] [] h = refl
same_path-eq [] (y ∷ ys) h = cc
same_path-eq (x ∷ xs) [] h = cc
same_path-eq (x ∷ xs) (y ∷ ys) h = ground (arith, eq_iff x y, same_path-eq xs ys)

-- A path below the root is the root or has its checksum file below the root too.
pub with_sum-under :
    (r p : FilePath) → is_under r p ≡ true → (r ≡ p) ⊎ (is_under r (with_sum p) ≡ true)
unfolding is_under with_sum
with_sum-under [] p h = inr refl
with_sum-under (r ∷ rs) [] h = cc
with_sum-under (r ∷ []) (x ∷ []) h = inl (ground (arith, eq_iff r x))
with_sum-under (r ∷ s ∷ rs) (x ∷ []) h = absurd (ground arith)
with_sum-under (r ∷ rs) (x ∷ y ∷ ys) h = elim (with_sum-under rs (y ∷ ys) (ground arith)) [
  | inl e ↦ inl (ground (arith, eq_iff r x))
  | inr k ↦ inr (ground arith)
]
