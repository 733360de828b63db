-- ===== src/Tests/Backup.antt =====
-- A backup on the node of `Node`.
use zfs_localpv.Prelude.{
  Str, codes, ◌==◌, List, [], ◌≡◌, refl, true, false, none, some, ◌||◌, if◌then◌else◌, get_or,
}
use zfs_localpv.Api.{ZfsVolume, ZfsBackup, ok}
use zfs_localpv.Zfs.Args.{volume_path, snapshot_path, build_zfs_snap_create_args}
use zfs_localpv.Zfs.Args.Transfer.{build_volume_backup_args}
use zfs_localpv.Zfs.Args.Parse.{read}
use zfs_localpv.Zfs.Host.{Ran, succeeded}
use zfs_localpv.Zfs.Volumes.{create_snapshot}
use zfs_localpv.Zfs.Backup.{sync_bkp}
use zfs_localpv.Tests.Volumes.{thick}
use zfs_localpv.Tests.Node.{Node, run}

abbrev backup : ZfsBackup
backup = record {
  name = codes "b";
  finalizers = [];
  deleting = false;
  volume_name = codes "pvc-1";
  owner_node_id = codes "a";
  snap_name = codes "s2";
  prev_snap_name = codes "s1";
  backup_dest = codes "h:9";
  status = codes "Init";
}

abbrev get : Str → Node ZfsBackup → Ran (Node ZfsBackup) ZfsVolume
get name s = (ok thick, s)

abbrev pipe : List Str → List Str → Node ZfsBackup → Ran (Node ZfsBackup) (Unit {0})
pipe send_args nc_args s = (ok tt, s)

unfoldable write_backup : ZfsBackup → Node ZfsBackup → Ran (Node ZfsBackup) (Unit {0})
write_backup bkp s = (ok tt, (s.0, λ name. if name == bkp.name then some bkp else s.1 name))

abbrev node : Node ZfsBackup
node = (λ name. name == codes "tank/k8s" || name == volume_path thick, λ _. none)

sync-succeeded : succeeded (sync_bkp run get pipe write_backup backup node) ≡ true
unfolding sync_bkp run write_backup ◌==◌ create_snapshot snapshot_path build_zfs_snap_create_args
    build_volume_backup_args read get_or
sync-succeeded = refl
