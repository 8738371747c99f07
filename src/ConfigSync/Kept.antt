-- ===== src/ConfigSync/Kept.antt =====
-- What a synchronisation does to the local configuration.
use dbmanager.Base.{
  ℕ, ◌≡◌, refl, ap, ◌∙◌, Bool, true, false, some, arith, Option-cases, Bool-cases, inl, inr, ◌⊎◌,
  ==_iff, ltb, not, ◌&&◌,
}
use dbmanager.Config.Secrets.{Fernet, loaded}
use dbmanager.Storage.{Bytes}
use dbmanager.Storage.Targets.{Targets}
use dbmanager.ConfigSync.{
  config_backup_key, Copy, State, Platform, config_target, is_enabled, is_newer, keep_copy,
  fetch_proxy, replace_config, download_config, sync_from_storage, get_storage_config_info,
  auto_sync_on_startup,
}

-- Why a download was not declined.
why :
    (force agreed newer : Bool)
    → not force && newer && not agreed ≡ false
    → (force ≡ true) ⊎ (agreed ≡ true) ⊎ (newer ≡ false)
why true agreed newer h = inl refl
why false true newer h = inr (inl refl)
why false false true h = cc
why false false false h = inr (inr refl)

module _ (f : Fernet) (s : Targets) (p : Platform s) (c : Copy) (now : ℕ) where
  -- Nothing is changed, or for a reason, and then there is a copy of the former file.
  abbrev pub IsSafe : Type 0 → State s → State s → Type 0
  IsSafe reason st st' = (st' ≡ st) ⊎ (reason × (st'.kept now ≡ some c.bytes))

  -- The file on the target is no older in the times that the code compares, which are naive and off UTC
  -- do not order as the instants do; or its download was asked for.
  abbrev pub IsWanted : Bool → Bool → Bool → State s → Type 0
  IsWanted force interactive answer st =
      (t : ℕ) × (get_storage_config_info f s p st ≡ some t)
      × ((force ≡ true)
          ⊎ (interactive && answer ≡ true)
          ⊎ (ltb (p.remote_time t) (p.local_time c.mtime) ≡ false))

  -- The file on the target is newer in these times.
  abbrev pub IsOutdated : State s → Type 0
  IsOutdated st =
      (t : ℕ) × (get_storage_config_info f s p st ≡ some t)
      × (ltb (p.local_time c.mtime) (p.remote_time t) ≡ true)

  fetch_proxy-kept : (i : ℕ) (st : State s) → (fetch_proxy f s p i st).kept ≡ st.kept
  unfolding fetch_proxy
  fetch_proxy-kept i st = ground arith

  replace_config-kept :
      (i : ℕ) (b : Bytes) (st : State s) → (replace_config f s p now i b st).1.kept ≡ st.kept
  unfolding replace_config
  replace_config-kept i b st = elim (Option-cases (p.parse b)) [
    | inl e ↦ ground arith
    | inr (v, e) ↦
        let written : State s = record st {
          file = some (record { bytes = b; mtime = now });
          config = loaded f v;
        } in
        ground (arith, fetch_proxy-kept i written)
  ]

  download_config-kept : (i : ℕ) (st : State s) → (download_config f s p now i st).1.kept ≡ st.kept
  unfolding download_config
  download_config-kept i st = elim (Option-cases (s.download i config_backup_key st.world)) [
    | inl e ↦ ground arith
    | inr (got, e) ↦ elim (Option-cases got) [
      | inl g ↦ ground arith
      | inr (b, g) ↦ ground (arith, replace_config-kept i b st)
    ]
  ]

  keep_copy-kept :
      (st : State s) → st.file ≡ some c → (keep_copy f s p now st).kept now ≡ some c.bytes
  unfolding keep_copy
  keep_copy-kept st e = ground (arith, ==_iff now now)

  downloaded-safe :
      (i : ℕ) (st : State s)
      → st.file ≡ some c
      → (download_config f s p now i (keep_copy f s p now st)).1.kept now ≡ some c.bytes
  downloaded-safe i st e =
      ap (λ k. k now) (download_config-kept i (keep_copy f s p now st)) ∙ keep_copy-kept st e

  sync_from_storage-IsSafe :
      (force interactive answer : Bool) (st : State s)
      → st.file ≡ some c
      → IsSafe
          (IsWanted force interactive answer st)
          st
          (sync_from_storage f s p now force interactive answer st).1
  unfolding sync_from_storage get_storage_config_info is_newer
  sync_from_storage-IsSafe force interactive answer st e =
      elim (Option-cases (config_target st.config)) [
        | inl g ↦ inl (ground arith)
        | inr (i, g) ↦ elim (Bool-cases (s.exists i st.world)) [
          | inr h ↦ inl (ground arith)
          | inl h ↦ elim (Option-cases (p.modified i config_backup_key st.world)) [
            | inl k ↦ inl (ground arith)
            | inr (info, k) ↦ elim (Option-cases info) [
              | inl l ↦ inl (ground arith)
              | inr (t, l) ↦
                  elim (Bool-cases (
                    not force
                    && ltb (p.remote_time t) (p.local_time c.mtime)
                    && not (interactive && answer))) [
                      | inl m ↦ inl (ground arith)
                      | inr m ↦ inr (
                        (
                          t,
                          ground arith,
                          why force (interactive && answer)
                              (ltb (p.remote_time t) (p.local_time c.mtime)) m,
                        ),
                        ground (arith, downloaded-safe i st e),
                      )
                    ]
            ]
          ]
        ]
      ]

  auto_sync_on_startup-IsSafe :
      (st : State s)
      → st.file ≡ some c
      → IsSafe (IsOutdated st) st (auto_sync_on_startup f s p now st)
  unfolding auto_sync_on_startup
  auto_sync_on_startup-IsSafe st e = elim (Bool-cases (is_enabled st.config)) [
    | inr g ↦ inl (ground arith)
    | inl g ↦ elim (Option-cases (get_storage_config_info f s p st)) [
      | inl h ↦ inl (ground arith)
      | inr (t, h) ↦ elim (Bool-cases (ltb (p.local_time c.mtime) (p.remote_time t))) [
        | inr k ↦ inl (ground arith)
        | inl k ↦ elim (sync_from_storage-IsSafe true true false st e) [
          | inl same ↦ inl (ground arith)
          | inr (w, copied) ↦ inr ((t, h, k), ground arith)
        ]
      ]
    ]
  ]

  -- A synchronisation from the target leaves everything as it was; or the target has the file, its
  -- download was forced or agreed to or the local time is not the greater one, and a copy of the former
  -- local file is left. At the start of the application the time of the target is then the greater one.
  -- The times are the naive ones that the code compares, with the time zone taken off the remote one,
  -- so off UTC a local file that is newer as an instant can be replaced.
  pub sync_from-IsSafe :
      (force interactive answer : Bool) (st : State s)
      → st.file ≡ some c
      → IsSafe
          (IsWanted force interactive answer st)
          st
          (sync_from_storage f s p now force interactive answer st).1
        × IsSafe (IsOutdated st) st (auto_sync_on_startup f s p now st)
  sync_from-IsSafe force interactive answer st e =
      (sync_from_storage-IsSafe force interactive answer st e, auto_sync_on_startup-IsSafe st e)
