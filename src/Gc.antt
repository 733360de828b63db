-- ===== src/Gc.antt =====
-- pkg/driver/backup_gc.go: the collector of backups whose previous snapshot has no backup. The
-- informer's cache is a parameter, `by_index f key`, the cached backups that the index function `f`
-- gives the key; so is the API server's `Delete`. A handler starts its work in a goroutine, which is
-- run here at once. The kinds of object that are no backups are left out.
pub mod Keys
pub mod Children
use zfs_localpv.Prelude.{
  Str, codes, ◌==◌, List, [], ◌∷◌, ◌++◌, Bool, true, false, ◌&&◌, not, if◌then◌else◌, is_empty,
}
use zfs_localpv.Api.{ZfsBackup}
use zfs_localpv.Zfs.Host.{Ran}

-- `getBackupKeyBySpec`
unfoldable pub get_backup_key_by_spec : Str → Str → Str → Str
get_backup_key_by_spec volume_name owner_node_id snap_name =
    volume_name ++ (codes "." ++ (owner_node_id ++ (codes "." ++ snap_name)))

abbrev pub IndexFunc : Type 0
IndexFunc = ZfsBackup → List Str

-- `BackupSnapshotIndexFunc`
unfoldable pub backup_snapshot_index_func : IndexFunc
backup_snapshot_index_func backup =
    (backup.volume_name ++ (codes "." ++ (backup.owner_node_id ++ (codes "." ++ backup.snap_name))))
    ∷ []

-- `BackupPreviousSnapshotIndexFunc`
unfoldable pub backup_previous_snapshot_index_func : IndexFunc
backup_previous_snapshot_index_func backup =
    if is_empty backup.prev_snap_name
    then []
    else (backup.volume_name
        ++ (codes "." ++ (backup.owner_node_id ++ (codes "." ++ backup.prev_snap_name))))
      ∷ []

module _ {S : Type 0} (by_index : IndexFunc → Str → List ZfsBackup)
    (delete : Str → S → Ran S (Unit {0})) where
  abbrev pub delete_if_none : List ZfsBackup → ZfsBackup → S → S
  delete_if_none [] backup s = (delete backup.name s).1
  delete_if_none (parent ∷ parents) backup s = s

  -- `deleteOrphanedIncBackup`
  unfoldable pub delete_orphaned_inc_backup : ZfsBackup → S → S
  delete_orphaned_inc_backup backup s =
      if is_empty backup.prev_snap_name
      then s
      else delete_if_none
          (by_index backup_snapshot_index_func
            (get_backup_key_by_spec backup.volume_name backup.owner_node_id backup.prev_snap_name))
          backup s

  -- the backups that `deleteBackupsReferencingDeletedBackup` finds
  unfoldable pub child_backups : ZfsBackup → List ZfsBackup
  child_backups backup =
      by_index backup_previous_snapshot_index_func
        (get_backup_key_by_spec backup.volume_name backup.owner_node_id backup.snap_name)

  -- its loop, which goes on after an error
  unfoldable pub delete_each : List ZfsBackup → S → S
  delete_each [] s = s
  delete_each (backup ∷ backups) s = delete_each backups (delete backup.name s).1

  -- `deleteBackupsReferencingDeletedBackup`
  unfoldable pub delete_backups_referencing_deleted_backup : ZfsBackup → S → S
  unfolding child_backups delete_each get_backup_key_by_spec backup_previous_snapshot_index_func
  delete_backups_referencing_deleted_backup backup s = delete_each (child_backups backup) s

  -- `handleBackupCreation`
  unfoldable pub handle_backup_creation : ZfsBackup → S → S
  unfolding delete_orphaned_inc_backup
  handle_backup_creation backup s =
      if is_empty backup.prev_snap_name then s else delete_orphaned_inc_backup backup s

  -- `handleBackupUpdate`
  unfoldable pub handle_backup_update : ZfsBackup → ZfsBackup → S → S
  unfolding delete_orphaned_inc_backup
  handle_backup_update old_backup new_backup s =
      if not (old_backup.prev_snap_name == new_backup.prev_snap_name)
        && not (is_empty new_backup.prev_snap_name)
      then delete_orphaned_inc_backup new_backup s
      else s

  -- `handleBackupDeletion`
  unfoldable pub handle_backup_deletion : ZfsBackup → S → S
  unfolding delete_backups_referencing_deleted_backup
  handle_backup_deletion backup s = delete_backups_referencing_deleted_backup backup s
