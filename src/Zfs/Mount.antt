-- ===== src/Zfs/Mount.antt =====
-- pkg/zfs/mount.go: mounting of volumes, with the functions of pkg/zfs/zfs_util.go that it uses. What
-- the mount library of Kubernetes and the operating system do is the parameter Mounter.
pub mod Once
use zfs_localpv.Prelude.{
  Str, codes, ℕ, ◌==◌, ◌++◌, List, [], ◌∷◌, Bool, true, false, ◌&&◌, ◌||◌, nat_eq, not, any,
  if◌then◌else◌, is_empty,
}
use zfs_localpv.Api.{ZfsVolume, Result, ok, err, Error, status, plain, invalid_argument, internal}
use zfs_localpv.Zfs.Host.{Ran, ◌>>◌, Exec, zfs}
use zfs_localpv.Zfs.Args.{volume_path, assign, is_dataset}
use zfs_localpv.Zfs.Resize.{get_volume_property}
use zfs_localpv.Mgmt.Server.{is_volume_ready}

-- `MountInfo`, without the access modes, which nothing reads
pub record MountInfo : Type 0 where
  pub fs_type : Str
  pub mount_path : Str
  pub mount_options : List Str
  pub format_options : List Str

-- `resolve` follows symbolic links, `mounts` lists the paths at which a device is mounted,
-- `format_and_mount` is `FormatAndMountZvol`, and `device_of` finds the device that is mounted at a
-- path, with the number of its mounts. The failure of `remove_path` is only logged.
pub record Mounter (S : Type 0) : Type 0 where
  pub resolve : Str → S → Ran S Str
  pub mounts : Str → S → Ran S (List Str)
  pub format_and_mount : Str → MountInfo → S → Ran S (Unit {0})
  pub make_directory : Str → S → Ran S (Unit {0})
  pub is_broken_mount : Str → S → Bool
  pub device_of : Str → S → Ran S (Str × ℕ)
  pub path_exists : Str → S → Ran S Bool
  pub unmount : Str → S → Ran S (Unit {0})
  pub remove_path : Str → S → S

abbrev pub device_path : ZfsVolume → Str
device_path vol = codes "/dev/zvol/" ++ volume_path vol

abbrev pub or_internal : {S A : Type 0} → Ran S A → Ran S A
or_internal (ok a, s) = (ok a, s)
or_internal (err e, s) = (err (status internal), s)

-- the options of `mount -o`, each with a comma after it
abbrev pub mount_option : List Str → Str
mount_option [] = []
mount_option (option ∷ options) = option ++ codes "," ++ mount_option options

-- whether the volume is mounted at the path already, from the paths at which it is mounted
unfoldable pub check_mounts : ZfsVolume → Str → List Str → Result Bool
check_mounts vol path [] = ok false
check_mounts vol path (first ∷ others) =
    if any (λ mounted. mounted == path) (first ∷ others)
    then ok true
    else if not (vol.spec.shared == codes "yes")
    then err (status internal)
    else ok false

module _ {S : Type 0} (exec : Exec S) (mounter : Mounter S) (node_id : Str) where
  -- `GetVolumeDevPath`
  abbrev pub get_volume_dev_path : ZfsVolume → S → Ran S Str
  get_volume_dev_path vol s =
      if is_dataset vol.spec then (ok (volume_path vol), s) else mounter.resolve (device_path vol) s

  -- `verifyMountRequest`
  unfoldable pub verify_mount_request : ZfsVolume → Str → S → Ran S Bool
  unfolding is_volume_ready check_mounts
  verify_mount_request vol path s =
      if is_empty path
      then (err (status invalid_argument), s)
      else if not (is_empty vol.spec.owner_node_id) && not (vol.spec.owner_node_id == node_id)
      then (err (status internal), s)
      else if not (is_volume_ready vol)
      then (err (status internal), s)
      else (or_internal (get_volume_dev_path vol s) >> λ device t.
          or_internal (mounter.mounts device t) >> λ paths u. (check_mounts vol path paths, u))

  -- `SetDatasetMountProp`
  abbrev pub set_dataset_mount_prop : ZfsVolume → Str → S → Ran S (Unit {0})
  set_dataset_mount_prop vol path s =
      exec zfs (codes "set" ∷ assign (codes "mountpoint") path ∷ volume_path vol ∷ []) s >> λ _ t.
      (ok tt, t)

  -- `MountZFSDataset`
  abbrev pub mount_zfs_dataset : ZfsVolume → Str → S → Ran S (Unit {0})
  mount_zfs_dataset vol path s = set_dataset_mount_prop vol path s >> λ _ t.
      get_volume_property exec vol (codes "mounted") t >> λ mounted u.
      if mounted == codes "no"
      then exec zfs (codes "mount" ∷ volume_path vol ∷ []) u >> (λ _ v. (ok tt, v))
      else (ok tt, u)

  -- the work of `MountZvol`
  abbrev pub attach_zvol : ZfsVolume → MountInfo → S → Ran S (Unit {0})
  attach_zvol vol info s = or_internal (mounter.format_and_mount (device_path vol) info s)

  -- the work of `MountDataset`
  abbrev pub attach_dataset : ZfsVolume → MountInfo → S → Ran S (Unit {0})
  attach_dataset vol info s = get_volume_property exec vol (codes "mountpoint") s >> λ val t.
      if val == codes "legacy"
      then or_internal (
          exec (codes "mount")
            (codes "-o"
              ∷ mount_option info.mount_options
              ∷ codes "-t"
              ∷ codes "zfs"
              ∷ volume_path vol
              ∷ info.mount_path
              ∷ [])
            t
          >> λ _ u. (ok tt, u))
      else or_internal (mount_zfs_dataset vol info.mount_path t)

  abbrev pub unless_mounted : Bool → S → Ran S (Unit {0}) → Ran S (Unit {0})
  unless_mounted mounted s ran = if mounted then (ok tt, s) else ran

  -- `MountZvol`
  unfoldable pub mount_zvol : ZfsVolume → MountInfo → S → Ran S (Unit {0})
  unfolding verify_mount_request
  mount_zvol vol info s = verify_mount_request vol info.mount_path s >> λ mounted t.
      unless_mounted mounted t (attach_zvol vol info t)

  -- `MountDataset`
  unfoldable pub mount_dataset : ZfsVolume → MountInfo → S → Ran S (Unit {0})
  unfolding verify_mount_request
  mount_dataset vol info s = verify_mount_request vol info.mount_path s >> λ mounted t.
      unless_mounted mounted t (attach_dataset vol info t)

  abbrev pub mount_by_type : ZfsVolume → MountInfo → S → Ran S (Unit {0})
  mount_by_type vol info s =
      if is_dataset vol.spec then mount_dataset vol info s else mount_zvol vol info s

  abbrev pub after_make_directory : ZfsVolume → MountInfo → Ran S (Unit {0}) → Ran S (Unit {0})
  after_make_directory vol info (ok _, s) = mount_by_type vol info s
  after_make_directory vol info (err e, s) =
      if not (mounter.is_broken_mount info.mount_path s)
      then (err (status internal), s)
      else mount_by_type vol info s

  -- `MountFilesystem`
  unfoldable pub mount_filesystem : ZfsVolume → MountInfo → S → Ran S (Unit {0})
  unfolding mount_zvol mount_dataset
  mount_filesystem vol info s =
      after_make_directory vol info (mounter.make_directory info.mount_path s)

  -- `SetDatasetLegacyMount`
  abbrev pub set_dataset_legacy_mount : ZfsVolume → S → Ran S (Unit {0})
  set_dataset_legacy_mount vol s =
      if not (is_dataset vol.spec)
      then (ok tt, s)
      else (get_volume_property exec vol (codes "mountpoint") s >> λ prop t.
          if not (prop == codes "legacy")
          then set_dataset_mount_prop vol (codes "legacy") t
          else (ok tt, t))

  abbrev pub detach : ZfsVolume → Str → S → Ran S (Unit {0})
  detach vol path s = mounter.unmount path s >> λ _ t.
      (ok tt, mounter.remove_path path (set_dataset_legacy_mount vol t).1)

  abbrev pub if_path_exists : ZfsVolume → Str → Ran S Bool → Ran S (Unit {0})
  if_path_exists vol path (ok true, s) = detach vol path s
  if_path_exists vol path (ok false, s) = (ok tt, s)
  if_path_exists vol path (err e, s) =
      if not (mounter.is_broken_mount path s) then (err plain, s) else detach vol path s

  -- `UmountVolume`
  unfoldable pub umount_volume : ZfsVolume → Str → S → Ran S (Unit {0})
  umount_volume vol path s = mounter.device_of path s >> λ found t.
      if is_empty found.0 || nat_eq found.1 0
      then (ok tt, t)
      else if_path_exists vol path (mounter.path_exists path t)
