-- ===== src/Mgmt/Snapshots.antt =====
-- pkg/mgmt/snapshot: the reconcile of a snapshot.
use zfs_localpv.Prelude.{
  Str, codes, List, ◌==◌, [], ◌∷◌, ◌++◌, ◌≡◌, Bool, true, Option, none, some, ◌&&◌, not,
  if◌then◌else◌, insert,
}
use zfs_localpv.Api.{ZfsSnapshot, Result, ok, err, plain}
use zfs_localpv.Zfs.Host.{Ran, ◌>>◌, succeeded, Exec}
use zfs_localpv.Zfs.Volumes.{create_snapshot, destroy_snapshot}
use zfs_localpv.Zfs.UserProperty.{validate}
use zfs_localpv.Mgmt.Server.{get_user_finalizers, no_finalizers, zfs_finalizer}

-- the object that `UpdateSnapInfo` writes
unfoldable pub updated_snapshot : Str → ZfsSnapshot → ZfsSnapshot
updated_snapshot node_id snap = record snap {
  finalizers = snap.finalizers ++ zfs_finalizer ∷ [];
  labels = insert (codes "kubernetes.io/nodename") node_id snap.labels;
  state = codes "Ready";
}

-- `Update` of a snapshot object, as that of a volume object in `Server`
pub record SnapshotStore {S : Type 0} (exec : Exec S) (exists : S → Str → Bool)
    (update : ZfsSnapshot → S → Ran S (Unit {0})) (stored : S → Str → Option ZfsSnapshot)
    : Type 0 where
  pub update_stored :
      (snap : ZfsSnapshot) (s : S)
      → succeeded (update snap s) ≡ true
      → stored (update snap s).1 snap.name
        ≡ (if snap.deleting && no_finalizers snap.finalizers then none else some snap)
  pub update_exists :
      (snap : ZfsSnapshot) (s : S) (name : Str) → exists (update snap s).1 name ≡ exists s name
  pub exec_stored :
      (command : Str) (args : List Str) (s : S) (name : Str)
      → stored (exec command args s).1 name ≡ stored s name

module _ {S : Type 0} (exec : Exec S) (update : ZfsSnapshot → S → Ran S (Unit {0}))
    (node_id : Str) where
  -- the last step is `RemoveSnapFinalizer`
  unfoldable pub sync_deleted_snap : ZfsSnapshot → S → Ran S (Unit {0})
  unfolding get_user_finalizers
  sync_deleted_snap snap s =
      if no_finalizers (get_user_finalizers snap.finalizers)
      then destroy_snapshot exec snap s >> (λ _ t. update (record snap { finalizers = [] }) t)
      else (err plain, s)

  abbrev pub unless_invalid : Result (Unit {0}) → S → Ran S (Unit {0}) → Ran S (Unit {0})
  unless_invalid (ok _) s ran = ran
  unless_invalid (err _) s ran = (err plain, s)

  unfoldable pub sync_new_snap : ZfsSnapshot → S → Ran S (Unit {0})
  unfolding updated_snapshot
  sync_new_snap snap s =
      create_snapshot exec snap s >> (λ _ t. update (updated_snapshot node_id snap) t)

  -- `syncSnap`
  unfoldable pub sync_snap : ZfsSnapshot → S → Ran S (Unit {0})
  unfolding sync_deleted_snap sync_new_snap
  sync_snap snap s =
      if snap.deleting
      then sync_deleted_snap snap s
      else unless_invalid (validate snap.spec) s
          (if not (snap.state == codes "Ready") then sync_new_snap snap s else (ok tt, s))
