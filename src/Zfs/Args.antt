-- ===== src/Zfs/Args.antt =====
-- pkg/zfs/zfs_util.go: the arguments of the `zfs` command for each operation. `opt` is the shape
-- `if len(value) != 0 { append("-o", key + "=" + value) }`, which the source writes out each time.
pub mod Transfer
pub mod Parse
pub mod Options
pub mod Restore
pub mod Address
pub mod Reservation
use zfs_localpv.Prelude.{
  Str, codes, ◌==◌, List, [], ◌∷◌, ◌++◌, Bool, is_empty, not, if◌then◌else◌, map, Dict, get_or,
  ◌&&◌,
}
use zfs_localpv.Api.{VolumeInfo, ZfsVolume, ZfsSnapshot}

-- `vol.Spec.PoolName + "/" + vol.Name`
abbrev pub dataset : Str → Str → Str
dataset pool name = pool ++ (codes "/" ++ name)

abbrev pub volume_path : ZfsVolume → Str
volume_path vol = dataset vol.spec.pool_name vol.name

abbrev pub assign : Str → Str → Str
assign key value = key ++ (codes "=" ++ value)

abbrev pub opt : Str → Str → List Str
opt key value = if is_empty value then [] else codes "-o" ∷ assign key value ∷ []

-- the same without `-o`, for `zfs set`
abbrev pub setting : Str → Str → List Str
setting key value = if is_empty value then [] else assign key value ∷ []

-- the loop over the user properties
abbrev pub user_opts : List (Str × Str) → List Str
user_opts [] = []
user_opts ((name, value) ∷ props) = codes "-o" ∷ assign name value ∷ user_opts props

abbrev pub user_settings : List (Str × Str) → List Str
user_settings [] = []
user_settings ((name, value) ∷ props) = assign name value ∷ user_settings props

unfoldable pub is_dataset : VolumeInfo → Bool
is_dataset spec = spec.volume_type == codes "DATASET"

-- `quotaProperty`
unfoldable pub quota_property : Str → Str
quota_property quota_type =
    if quota_type == codes "refquota" then codes "refquota" else codes "quota"

-- the map literal of `reservationPropertyName`
abbrev pub reservation_properties : Dict Str
reservation_properties =
    (codes "quota", codes "reservation") ∷ (codes "refquota", codes "refreservation") ∷ []

-- `reservationPropertyName`
unfoldable pub reservation_property_name : Str → Str
unfolding quota_property
reservation_property_name quota_type = get_or (quota_property quota_type) reservation_properties []

-- `reservationProperty`
unfoldable pub reservation_property : Str → Str → Str
unfolding reservation_property_name
reservation_property quota_type capacity = assign (reservation_property_name quota_type) capacity

abbrev pub thick_opts : VolumeInfo → Str → List Str
thick_opts spec property =
    if spec.thin_provision == codes "no" then codes "-o" ∷ property ∷ [] else []

-- `dedup`, `compression` and `logbias`, which every command that creates a volume sets
abbrev pub common_opts : VolumeInfo → List Str
common_opts spec =
    opt (codes "dedup") spec.dedup
    ++ (opt (codes "compression") spec.compression ++ opt (codes "logbias") spec.log_bias)

abbrev pub encryption_opts : VolumeInfo → List Str
encryption_opts spec =
    opt (codes "encryption") spec.encryption
    ++ (opt (codes "keylocation") spec.key_location ++ opt (codes "keyformat") spec.key_format)

-- quota, record size and access times of a dataset
abbrev pub quota_opts : VolumeInfo → List Str
quota_opts spec =
    opt (quota_property spec.quota_type) spec.capacity
    ++ (opt (codes "recordsize") spec.record_size ++ opt (codes "atime") spec.a_time)

abbrev pub legacy_mount : List Str
legacy_mount = codes "-o" ∷ codes "mountpoint=legacy" ∷ []

-- `buildZvolCreateArgs`
unfoldable pub build_zvol_create_args : ZfsVolume → List Str
build_zvol_create_args vol =
    codes "create"
    ∷ ((if spec.thin_provision == codes "yes" then codes "-s" ∷ [] else [])
        ++ ((if is_empty spec.capacity then [] else codes "-V" ∷ spec.capacity ∷ [])
            ++ ((if is_empty spec.vol_block_size then [] else codes "-b" ∷ spec.vol_block_size ∷ [])
                ++ (common_opts spec
                    ++ (encryption_opts spec
                        ++ (user_opts spec.user_properties ++ volume_path vol ∷ []))))))
  where
    open vol use {spec}

-- `buildDatasetCreateArgs`
unfoldable pub build_dataset_create_args : ZfsVolume → List Str
unfolding quota_property reservation_property
build_dataset_create_args vol =
    codes "create"
    ∷ (quota_opts spec
        ++ (thick_opts spec (reservation_property spec.quota_type spec.capacity)
            ++ (common_opts spec
                ++ (encryption_opts spec
                    ++ (user_opts spec.user_properties
                        ++ (legacy_mount ++ volume_path vol ∷ []))))))
  where
    open vol use {spec}

-- `buildCloneCreateArgs`
unfoldable pub build_clone_create_args : ZfsVolume → List Str
unfolding quota_property reservation_property is_dataset
build_clone_create_args vol =
    codes "clone"
    ∷ ((if is_dataset spec
          then quota_opts spec
            ++ (thick_opts spec (reservation_property spec.quota_type spec.capacity)
                ++ legacy_mount)
          else [])
        ++ (common_opts spec
            ++ (user_opts spec.user_properties
                ++ dataset spec.pool_name spec.snap_name ∷ volume_path vol ∷ [])))
  where
    open vol use {spec}

-- `buildVolumeSetArgs`
unfoldable pub build_volume_set_args : ZfsVolume → List Str
unfolding is_dataset
build_volume_set_args vol =
    codes "set"
    ∷ ((if is_dataset spec then setting (codes "recordsize") spec.record_size else [])
        ++ ((if is_dataset spec then setting (codes "atime") spec.a_time else [])
            ++ (setting (codes "dedup") spec.dedup
                ++ (setting (codes "compression") spec.compression
                    ++ (setting (codes "logbias") spec.log_bias
                        ++ (user_settings spec.user_properties ++ volume_path vol ∷ []))))))
  where
    open vol use {spec}

-- `buildVolumeResizeArgs`
unfoldable pub build_volume_resize_args : ZfsVolume → List Str
unfolding is_dataset quota_property reservation_property
build_volume_resize_args vol =
    codes "set"
    ∷ (if is_dataset spec
        then assign (quota_property spec.quota_type) spec.capacity
        else assign (codes "volsize") spec.capacity)
    ∷ ((if spec.thin_provision == codes "no"
          then reservation_property spec.quota_type spec.capacity ∷ []
          else [])
        ++ volume_path vol ∷ [])
  where
    open vol use {spec}

-- `buildVolumeDestroyArgs`
unfoldable pub build_volume_destroy_args : ZfsVolume → List Str
build_volume_destroy_args vol = codes "destroy" ∷ codes "-r" ∷ volume_path vol ∷ []

-- `snap.Spec.PoolName + "/" + volname + "@" + snap.Name`, with the volume from the snapshot's label
unfoldable pub snapshot_path : ZfsSnapshot → Str
snapshot_path snap =
    snap.spec.pool_name
    ++ (codes "/"
        ++ (get_or (codes "openebs.io/persistent-volume") snap.labels []
            ++ (codes "@" ++ snap.name)))

-- `buildZFSSnapCreateArgs`
unfoldable pub build_zfs_snap_create_args : ZfsSnapshot → List Str
unfolding snapshot_path
build_zfs_snap_create_args snap =
    codes "snapshot" ∷ (user_opts snap.spec.user_properties ++ snapshot_path snap ∷ [])

-- `buildZFSSnapDestroyArgs`
unfoldable pub build_zfs_snap_destroy_args : ZfsSnapshot → List Str
unfolding snapshot_path
build_zfs_snap_destroy_args snap = codes "destroy" ∷ snapshot_path snap ∷ []
