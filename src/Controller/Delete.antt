-- ===== src/Controller/Delete.antt =====
-- `DeleteVolume`, `DeleteSnapshot` and the checks of their requests. What stands between
-- `LockVolume` and `unlock` runs as one sequence; Lock.antt is about the lock.
pub mod Kept
pub mod Last
use zfs_localpv.Prelude.{
  ℕ, Str, codes, ◌==◌, List, [], ◌∷◌, Bool, true, false, ◌||◌, ◌&&◌, not, if◌then◌else◌, is_empty,
  insert, get_or, to_lower, split, length, nat_eq, any,
}
use zfs_localpv.Api.{
  ZfsVolume, ZfsSnapshot, Result, ok, err, status, plain, internal, not_found, invalid_argument,
  failed_precondition,
}
use zfs_localpv.Zfs.Host.{Ran, ◌>>◌}
use zfs_localpv.Builder.Volume.{mark_for_deletion_annotation, annotated}
use zfs_localpv.Controller.Server.{Cluster, or_status, wrapped, unless_missing, check}

-- the services of `newControllerCapabilities`
pub data Rpc : Type 0 where
  create_delete_volume create_delete_snapshot clone_volume expand_volume get_capacity : Rpc

abbrev rpc_index : Rpc → ℕ
rpc_index create_delete_volume = 0
rpc_index create_delete_snapshot = 1
rpc_index clone_volume = 2
rpc_index expand_volume = 3
rpc_index get_capacity = 4

unfoldable pub new_controller_capabilities : List Rpc
new_controller_capabilities =
    create_delete_volume ∷ create_delete_snapshot ∷ clone_volume ∷ expand_volume ∷ get_capacity ∷ []

-- `validateRequest`
unfoldable pub validate_request : List Rpc → Rpc → Result (Unit {0})
validate_request capabilities c =
    if any (λ cap. nat_eq (rpc_index c) (rpc_index cap)) capabilities
    then ok tt
    else err (status invalid_argument)

abbrev pub wrap : Result (Unit {0}) → Result (Unit {0})
wrap (ok _) = ok tt
wrap (err e) = err plain

-- `validateDeleteVolumeReq`
unfoldable pub validate_delete_volume_req : List Rpc → Str → Result (Unit {0})
unfolding validate_request
validate_delete_volume_req capabilities volume_id =
    if is_empty volume_id
    then err (status invalid_argument)
    else wrap (validate_request capabilities create_delete_volume)

abbrev pub is_marked : ZfsVolume → Bool
is_marked vol = get_or mark_for_deletion_annotation vol.annotations [] == codes "true"

module _ {S : Type 0} (api : Cluster S) where
  -- `MarkForDeletion`
  unfoldable pub mark_for_deletion : Str → S → Ran S (Unit {0})
  mark_for_deletion name s = api.read_volume name s >> λ vol t. api.write_volume (annotated vol) t

  -- `IsVolumeEligibleForDeletion`
  unfoldable pub is_volume_eligible_for_deletion : Str → S → Ran S Bool
  is_volume_eligible_for_deletion name s =
      or_status internal (api.read_volume name s) >> λ vol t. (ok (is_marked vol), t)

  -- `DeleteVolume`, where the snapshots of the volume are known
  abbrev pub delete_or_mark : Str → List ZfsSnapshot → S → Ran S (Unit {0})
  delete_or_mark volume [] s = wrapped (api.remove_volume volume s)
  delete_or_mark volume (_ ∷ _) s = wrapped (mark_for_deletion volume s)

  -- `DeleteVolume`, where the volume is there
  abbrev pub delete_found : Str → ZfsVolume → S → Ran S (Unit {0})
  delete_found volume vol s =
      if vol.deleting
      then (ok tt, s)
      else if not (vol.state == codes "Ready")
      then (err (status internal), s)
      else or_status not_found (api.snapshots_of volume s) >> delete_or_mark volume

  -- `DeleteVolume`
  unfoldable pub controller_delete_volume : List Rpc → Str → S → Ran S (Unit {0})
  unfolding validate_delete_volume_req
  controller_delete_volume capabilities volume_id s =
      check (validate_delete_volume_req capabilities volume_id) s >> λ _ t.
      unless_missing (api.read_volume (to_lower volume_id) t) (delete_found (to_lower volume_id))

  -- `DeleteSnapshot`, where the snapshot was deleted
  abbrev pub delete_last : Str → List ZfsSnapshot → Bool → S → Ran S (Unit {0})
  delete_last volume snaps eligible s =
      if nat_eq (length snaps) 1 && eligible
      then wrapped (api.remove_volume volume s)
      else (ok tt, s)

  -- `DeleteSnapshot`, where the snapshot is there
  abbrev pub delete_listed : Str → Str → List ZfsSnapshot → S → Ran S (Unit {0})
  delete_listed volume name snaps s = or_status internal (api.remove_snapshot name s) >> λ _ t.
      or_status failed_precondition (is_volume_eligible_for_deletion volume t)
      >> delete_last volume snaps

  unfoldable pub delete_snapshot_of : List Str → S → Ran S (Unit {0})
  delete_snapshot_of (volume ∷ name ∷ []) s =
      unless_missing (api.read_snapshot name s) λ _ t.
        or_status failed_precondition (api.snapshots_of volume t) >> delete_listed volume name
  delete_snapshot_of _ s = (ok tt, s)

  -- `DeleteSnapshot`
  unfoldable pub controller_delete_snapshot : Str → S → Ran S (Unit {0})
  unfolding split delete_snapshot_of
  controller_delete_snapshot snapshot_id s =
      if is_empty snapshot_id
      then (err (status invalid_argument), s)
      else delete_snapshot_of (split b'@' snapshot_id) s
