-- ===== src/Mgmt/Volumes.antt =====
-- pkg/mgmt/volume: the controller of volumes.
use zfs_localpv.Prelude.{Str, codes, [], if◌then◌else◌, is_empty}
use zfs_localpv.Api.{ZfsVolume, Result, ok, err, plain}
use zfs_localpv.Zfs.Host.{Ran, ◌>>◌, Exec}
use zfs_localpv.Zfs.Volumes.{create_volume, create_clone, destroy_volume, set_volume_prop}
use zfs_localpv.Zfs.UserProperty.{validate}
use zfs_localpv.Mgmt.Server.{get_user_finalizers, is_volume_ready, updated_volume, no_finalizers}

module _ {S : Type 0} (exec : Exec S) (generate_uuid : Str → Str → S → Ran S (Unit {0}))
    (update : ZfsVolume → S → Ran S (Unit {0})) (node_id : Str) where
  -- `UpdateZvolInfo` once the volume has been provisioned or not
  abbrev pub record_outcome : ZfsVolume → Ran S (Unit {0}) → Ran S (Unit {0})
  record_outcome vol (ok _, s) = update (updated_volume node_id (codes "Ready") vol) s
  record_outcome vol (err _, s) = update (updated_volume node_id (codes "Failed") vol) s

  abbrev pub provision : ZfsVolume → S → Ran S (Unit {0})
  provision vol s =
      if is_empty vol.spec.snap_name
      then create_volume exec vol s
      else create_clone exec generate_uuid vol s

  -- `syncZV` of a volume that is being deleted; the last step is `RemoveVolumeFinalizer`
  unfoldable pub sync_deleted : ZfsVolume → S → Ran S (Unit {0})
  unfolding get_user_finalizers
  sync_deleted vol s =
      if no_finalizers (get_user_finalizers vol.finalizers)
      then destroy_volume exec vol s >> (λ _ t. update (record vol { finalizers = [] }) t)
      else (err plain, s)

  abbrev pub if_valid : Result (Unit {0}) → S → Ran S (Unit {0}) → Ran S (Unit {0})
  if_valid (ok _) s ran = ran
  if_valid (err _) s ran = (err plain, s)

  -- `syncZV`
  unfoldable pub sync_zv : ZfsVolume → S → Ran S (Unit {0})
  unfolding sync_deleted
  sync_zv vol s =
      if vol.deleting
      then sync_deleted vol s
      else if_valid (validate vol.spec) s (
          if is_volume_ready vol
          then set_volume_prop exec vol s
          else record_outcome vol (provision vol s))
