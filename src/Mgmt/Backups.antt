-- ===== src/Mgmt/Backups.antt =====
-- What a reconcile of a backup leaves behind.
use zfs_localpv.Prelude.{Str, codes, List, ◌≡◌, ◌⊎◌, Bool, true, false, Option, some}
use zfs_localpv.Api.{ZfsVolume, ZfsBackup, ok}
use zfs_localpv.Zfs.Args.{snapshot_path}
use zfs_localpv.Zfs.Host.{Ran, succeeded, Exec, ZfsCommand}
use zfs_localpv.Zfs.Backup.{backup_snapshot, Sent}

-- the backup as the API server has it: done, where the sending of a snapshot succeeded, and failed
-- where it failed
abbrev pub Settled :
    {S : Type 0} → (S → Str → Option ZfsBackup) → ZfsBackup → Bool → Type 0 → S → Type 0
Settled stored bkp created Done s =
    (w : ZfsBackup) × (stored s bkp.name ≡ some w)
    × (((created ≡ true) × (w.status ≡ codes "Done") × Done)
        ⊎ ((created ≡ false) × (w.status ≡ codes "Failed")))

module _ {S : Type 0} {exec : Exec S} (get : Str → S → Ran S ZfsVolume)
    (pipe : List Str → List Str → S → Ran S (Unit {0})) (update : ZfsBackup → S → Ran S (Unit {0}))
    {exists : S → Str → Bool} (stored : S → Str → Option ZfsBackup) (laws : ZfsCommand exec exists)
    (pipe_exists : (send_args nc_args : List Str) (s : S) (other : Str)
      → exists (pipe send_args nc_args s).1 other ≡ exists s other)
    (update_stored : (bkp : ZfsBackup) (s : S)
      → succeeded (update bkp s) ≡ true
      → bkp.deleting ≡ false
      → stored (update bkp s).1 bkp.name ≡ some bkp) where
  -- what was there to be sent, and was sent
  abbrev pub SentOf : ZfsBackup → S → S → Type 0
  SentOf bkp s t =
      (vol : ZfsVolume) × ((get bkp.volume_name s).0 ≡ ok vol)
      × (exists t (snapshot_path (backup_snapshot bkp vol)) ≡ true)
      × Sent exec get pipe update bkp vol t
