-- ===== src/Api.antt =====
-- The objects of pkg/apis/openebs.io/zfs/v1 and the errors that the driver tells apart. A map of
-- user properties is a list in the order in which one `range` loop visits it; Go leaves that order
-- open, and every theorem holds for each order.
use zfs_localpv.Prelude.{Str, List, Option, Dict, Bool}
use zfs_localpv.Prelude.Int.{ℤ}

-- `Pool` of zfsnode.go; a quantity is the int64 that its `Value()` returns.
pub record Pool : Type 0 where
  pub name : Str
  pub uuid : Str
  pub free : ℤ
  pub used : ℤ

-- The fields of `metav1.OwnerReference` that the driver reads.
pub record OwnerReference : Type 0 where
  pub kind : Str
  pub name : Str
  pub uid : Str
  pub controller : Option Bool

pub record ZfsNode : Type 0 where
  pub name : Str
  pub owner_references : List OwnerReference
  pub pools : List Pool

-- `VolumeInfo` of zfsvolume.go
pub record VolumeInfo : Type 0 where
  pub owner_node_id : Str
  pub pool_name : Str
  pub snap_name : Str
  pub capacity : Str
  pub record_size : Str
  pub vol_block_size : Str
  pub compression : Str
  pub dedup : Str
  pub a_time : Str
  pub log_bias : Str
  pub encryption : Str
  pub key_location : Str
  pub key_format : Str
  pub thin_provision : Str
  pub volume_type : Str
  pub quota_type : Str
  pub fs_type : Str
  pub shared : Str
  pub user_properties : List (Str × Str)

-- `ZFSVolume` with the metadata that the driver reads and writes. `deleting` says that
-- `DeletionTimestamp` is set.
pub record ZfsVolume : Type 0 where
  pub name : Str
  pub labels : Dict Str
  pub annotations : Dict Str
  pub finalizers : List Str
  pub deleting : Bool
  pub spec : VolumeInfo
  pub state : Str

-- `ZFSSnapshot`, `ZFSBackup` and `ZFSRestore`, each with its spec's fields
pub record ZfsSnapshot : Type 0 where
  pub name : Str
  pub labels : Dict Str
  pub finalizers : List Str
  pub deleting : Bool
  pub spec : VolumeInfo
  pub state : Str

pub record ZfsBackup : Type 0 where
  pub name : Str
  pub finalizers : List Str
  pub deleting : Bool
  pub volume_name : Str
  pub owner_node_id : Str
  pub snap_name : Str
  pub prev_snap_name : Str
  pub backup_dest : Str
  pub status : Str

pub record ZfsRestore : Type 0 where
  pub name : Str
  pub deleting : Bool
  pub volume_name : Str
  pub owner_node_id : Str
  pub restore_src : Str
  pub vol_spec : VolumeInfo
  pub status : Str

-- gRPC status codes that the driver returns
pub data Code : Type 0 where
  invalid_argument not_found already_exists aborted internal : Code
  failed_precondition resource_exhausted deadline_exceeded unimplemented : Code

-- An error, as far as the driver's control flow reads it: a gRPC status, the API server's
-- "not found" (`k8serror.IsNotFound`), or any other; `panicked` is a run-time panic, and
-- `still_waiting` stands for a call that has not returned. Message texts are left out.
pub data Error : Type 0 where
  status : Code → Error
  object_not_found : Error
  plain : Error
  panicked : Error
  still_waiting : Error

pub data Result {ℓ} (A : Type ℓ) : Type ℓ where
  ok : A → Result A
  err : Error → Result A

infixl 5 ◌>>=◌
abbrev pub ◌>>=◌ {ℓ κ} : {A : Type ℓ} {B : Type κ} → Result A → (A → Result B) → Result B
ok a >>= f = f a
err e >>= f = err e
