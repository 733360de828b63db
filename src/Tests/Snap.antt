-- ===== src/Tests/Snap.antt =====
-- Reconciles of a snapshot on the node of `Node`.
use zfs_localpv.Prelude.{codes, ◌==◌, ◌≡◌, refl, true, [], ◌∷◌, get_or}
use zfs_localpv.Api.{ZfsSnapshot}
use zfs_localpv.Zfs.Args.{snapshot_path, build_zfs_snap_destroy_args}
use zfs_localpv.Zfs.Args.Parse.{read}
use zfs_localpv.Zfs.Host.{succeeded, below}
use zfs_localpv.Zfs.Volumes.{destroy_snapshot}
use zfs_localpv.Mgmt.Snapshots.{sync_snap}
use zfs_localpv.Tests.Volumes.{snapshot}
use zfs_localpv.Tests.Node.{run, write_snapshot, snapped_node}

abbrev old : ZfsSnapshot
old = record snapshot { deleting = true; finalizers = codes "zfs.openebs.io/finalizer" ∷ [] }

deleted-succeeded : succeeded (sync_snap run write_snapshot (codes "a") old snapped_node) ≡ true
unfolding sync_snap run write_snapshot ◌==◌ below destroy_snapshot snapshot_path
    build_zfs_snap_destroy_args read get_or
deleted-succeeded = refl
