-- ===== src/Zfs/Args/Transfer.antt =====
-- pkg/zfs/zfs_util.go: the arguments of the two ends of a backup or restore pipe.
use zfs_localpv.Prelude.{Str, codes, List, [], ◌∷◌, ◌++◌, is_empty, if◌then◌else◌, split}
use zfs_localpv.Api.{ZfsVolume, ZfsBackup, ZfsRestore, Result, ok, err, plain, ◌>>=◌}
use zfs_localpv.Zfs.Args.{
  dataset, volume_path, assign, is_dataset, quota_property, quota_opts, thick_opts, common_opts,
  encryption_opts, legacy_mount,
}

-- `nc -w 3 host port`, where the address has two parts
abbrev pub nc_args : List Str → Result (List Str)
nc_args (host ∷ port ∷ []) = ok (codes "-w" ∷ codes "3" ∷ host ∷ port ∷ [])
nc_args _ = err plain

abbrev pub at_snapshot : ZfsVolume → Str → Str
at_snapshot vol snap = volume_path vol ++ (codes "@" ++ snap)

-- the options and operands of `zfs recv`
unfoldable pub recv_args : ZfsRestore → List Str
unfolding quota_property is_dataset
recv_args rstr =
    (if is_dataset spec
      then quota_opts spec
        ++ (thick_opts spec (assign (codes "reservation") spec.capacity) ++ legacy_mount)
      else [])
    ++ (common_opts spec
        ++ (encryption_opts spec ++ codes "-F" ∷ dataset spec.pool_name rstr.volume_name ∷ []))
  where
    open rstr use {vol_spec as spec}

-- `buildVolumeBackupArgs`: the arguments of `zfs send` and of `nc`
unfoldable pub build_volume_backup_args : ZfsBackup → ZfsVolume → Result (List Str × List Str)
unfolding split
build_volume_backup_args bkp vol = nc_args (split b':' bkp.backup_dest) >>= λ nc. ok (
  codes "send"
      ∷ (if is_empty bkp.prev_snap_name
          then at_snapshot vol bkp.snap_name ∷ []
          else codes "-i"
            ∷ at_snapshot vol bkp.prev_snap_name
            ∷ at_snapshot vol bkp.snap_name
            ∷ []),
  nc,
)

-- `buildVolumeRestoreArgs`: the arguments of `nc` and of `zfs recv`
unfoldable pub build_volume_restore_args : ZfsRestore → Result (List Str × List Str)
unfolding split recv_args
build_volume_restore_args rstr =
    nc_args (split b':' rstr.restore_src) >>= λ nc. ok (nc, codes "recv" ∷ recv_args rstr)
