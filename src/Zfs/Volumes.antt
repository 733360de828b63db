-- ===== src/Zfs/Volumes.antt =====
-- pkg/zfs/zfs_util.go: the operations on volumes and snapshots.
pub mod Create
pub mod Clone
pub mod Untouched
pub mod Destroy
use zfs_localpv.Prelude.{
  Str, codes, ◌==◌, List, [], ◌∷◌, ◌++◌, Bool, true, false, Option, none, some, ◌||◌, ◌&&◌,
  is_empty, not, if◌then◌else◌, lookup, Dict, get_or,
}
use zfs_localpv.Api.{VolumeInfo, ZfsVolume, ZfsSnapshot, Result, ok, err, plain, Error}
use zfs_localpv.Zfs.Args.{
  dataset, volume_path, is_dataset, snapshot_path, build_zvol_create_args,
  build_dataset_create_args, build_clone_create_args, build_volume_set_args,
  build_volume_destroy_args, build_zfs_snap_create_args, build_zfs_snap_destroy_args,
}
use zfs_localpv.Zfs.Host.{Ran, ◌>>◌, done, Exec, zfs}

-- `if err := getVolume(..); err != nil { .. }`: what is there is left as it is.
abbrev pub unless_there :
    {S : Type 0} → Ran S (Unit {0}) → (S → Ran S (Unit {0})) → Ran S (Unit {0})
unless_there (ok _, s) make = (ok tt, s)
unless_there (err _, s) make = make s

-- `if err := getVolume(..); err != nil { return nil }`
abbrev pub if_there : {S : Type 0} → Ran S (Unit {0}) → (S → Ran S (Unit {0})) → Ran S (Unit {0})
if_there (ok _, s) act = act s
if_there (err _, s) act = (ok tt, s)

-- an error that is only logged
abbrev pub logged : {S : Type 0} → Ran S (Unit {0}) → Ran S (Unit {0})
logged (_, s) = (ok tt, s)

-- the volume that `CreateClone` and `DestroyVolume` snapshot for a clone
abbrev pub source_volume : ZfsVolume → Option Str
source_volume vol = lookup (codes "openebs.io/source-volume") vol.labels

-- `if srcVol, ok := vol.Labels[ZFSSrcVolKey]; ok { .. }`
abbrev pub for_source :
    {S : Type 0} → Option Str → (Str → S → Ran S (Unit {0})) → S → Ran S (Unit {0})
for_source none act s = (ok tt, s)
for_source (some src_vol) act s = act src_vol s

-- the snapshot of `src_vol` under the name of the clone `vol`
abbrev pub clone_snapshot : ZfsVolume → Str → ZfsSnapshot
clone_snapshot vol src_vol = record {
  name = vol.name;
  labels = (codes "openebs.io/persistent-volume", src_vol) ∷ [];
  finalizers = [];
  deleting = false;
  spec = vol.spec;
  state = [];
}

module _ {S : Type 0} (exec : Exec S) where
  -- `getVolume`
  unfoldable pub get_volume : Str → S → Ran S (Unit {0})
  get_volume volume s = done (exec zfs (codes "list" ∷ volume ∷ []) s)

  -- `CreateVolume`
  unfoldable pub create_volume : ZfsVolume → S → Ran S (Unit {0})
  unfolding is_dataset get_volume
  create_volume vol s =
      let args =
        if is_dataset vol.spec then build_dataset_create_args vol else build_zvol_create_args vol in
      unless_there (get_volume (volume_path vol) s) λ t. done (exec zfs args t)

  -- `CreateSnapshot`
  unfoldable pub create_snapshot : ZfsSnapshot → S → Ran S (Unit {0})
  unfolding get_volume
  create_snapshot snap s =
      unless_there (get_volume (snapshot_path snap) s)
        λ t. done (exec zfs (build_zfs_snap_create_args snap) t)

  -- `DestroySnapshot`
  unfoldable pub destroy_snapshot : ZfsSnapshot → S → Ran S (Unit {0})
  unfolding get_volume
  destroy_snapshot snap s = get_volume snap.spec.pool_name s >> λ _ t.
      if_there (get_volume (snapshot_path snap) t)
        λ u. done (exec zfs (build_zfs_snap_destroy_args snap) u)

  -- the end of `DestroyVolume`, once the volume is gone
  unfoldable pub destroy_clone_snapshot : ZfsVolume → S → Ran S (Unit {0})
  unfolding destroy_snapshot
  destroy_clone_snapshot vol s =
      for_source (source_volume vol) (λ v t. logged (destroy_snapshot (clone_snapshot vol v) t)) s

  -- `DestroyVolume`
  unfoldable pub destroy_volume : ZfsVolume → S → Ran S (Unit {0})
  unfolding get_volume destroy_clone_snapshot
  destroy_volume vol s = get_volume vol.spec.pool_name s >> λ _ t.
      if_there (get_volume (volume_path vol) t)
        λ u. exec zfs (build_volume_destroy_args vol) u >> λ _ v. destroy_clone_snapshot vol v

  -- `SetVolumeProp`
  unfoldable pub set_volume_prop : ZfsVolume → S → Ran S (Unit {0})
  unfolding is_dataset
  set_volume_prop vol s =
      if is_empty spec.compression
        && is_empty spec.dedup
        && is_empty spec.log_bias
        && is_nil spec.user_properties
        && (not (is_dataset spec) || is_empty spec.record_size && is_empty spec.a_time)
      then (ok tt, s)
      else done (exec zfs (build_volume_set_args vol) s)
    where
      open vol use {spec}

      is_nil : List (Str × Str) → Bool
      is_nil [] = true
      is_nil (_ ∷ _) = false

  -- the part of `CreateClone` that makes the snapshot of a volume to be cloned
  unfoldable pub create_clone_snapshot : ZfsVolume → S → Ran S (Unit {0})
  unfolding create_snapshot
  create_clone_snapshot vol s =
      for_source (source_volume vol) (λ v t. create_snapshot (clone_snapshot vol v) t) s

  -- the part of `CreateClone` that makes the clone
  unfoldable pub clone_dataset : ZfsVolume → S → Ran S (Unit {0})
  unfolding get_volume
  clone_dataset vol s =
      unless_there (get_volume (volume_path vol) s)
        λ t. done (exec zfs (build_clone_create_args vol) t)

  -- `xfs.GenerateUUID` and `btrfs.GenerateUUID` of lib-csi, by the filesystem's name
  module _ (generate_uuid : Str → Str → S → Ran S (Unit {0})) where
    -- a clone of an xfs or a btrfs filesystem is mounted beside its origin
    unfoldable pub renew_uuid : Str → Str → S → Ran S (Unit {0})
    renew_uuid fs_type device s =
        if fs_type == codes "xfs" || fs_type == codes "btrfs"
        then generate_uuid fs_type device s
        else (ok tt, s)

    -- `CreateClone`
    unfoldable pub create_clone : ZfsVolume → S → Ran S (Unit {0})
    unfolding create_clone_snapshot clone_dataset renew_uuid
    create_clone vol s = create_clone_snapshot vol s >> (λ _ t. clone_dataset vol t) >> λ _ u.
        renew_uuid vol.spec.fs_type (codes "/dev/zvol/" ++ volume_path vol) u
