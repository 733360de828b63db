-- ===== src/Mgmt/Snapped.antt =====
-- What a reconcile of a snapshot leaves behind.
use zfs_localpv.Prelude.{Str, [], Bool, Option}
use zfs_localpv.Api.{ZfsSnapshot}
use zfs_localpv.Zfs.Host.{Ran, ◌>>◌, Exec, ZfsCommand}
use zfs_localpv.Zfs.Volumes.{destroy_snapshot}
use zfs_localpv.Mgmt.Snapshots.{SnapshotStore}

module _ {S : Type 0} {exec : Exec S} {exists : S → Str → Bool}
    {update : ZfsSnapshot → S → Ran S (Unit {0})} {stored : S → Str → Option ZfsSnapshot}
    (laws : ZfsCommand exec exists) (store : SnapshotStore exec exists update stored)
    (node_id : Str) where
  open store use {update_stored, update_exists, exec_stored}

  unfoldable removal : ZfsSnapshot → S → Ran S (Unit {0})
  removal snap s = destroy_snapshot exec snap s >> λ _ t. update (record snap { finalizers = [] }) t
