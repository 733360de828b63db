-- ===== src/Tests/Mounts.antt =====
-- Mount requests of a ready volume.
use zfs_localpv.Prelude.{Str, codes, ◌==◌, List, [], ◌∷◌, ◌≡◌, refl, true, false, ◌⊎◌, is_empty}
use zfs_localpv.Api.{ZfsVolume, ok, err, plain, status, internal}
use zfs_localpv.Zfs.Host.{Exec}
use zfs_localpv.Mgmt.Server.{is_volume_ready}
use zfs_localpv.Zfs.Mount.{Mounter, get_volume_dev_path, verify_mount_request}
use zfs_localpv.Zfs.Mount.Once.{IsFree, verify_mount_request-IsFree}
use zfs_localpv.Tests.Volumes.{volume}

-- the state is the list of the paths at which the volume is mounted
abbrev mounter : Mounter (List Str)
mounter = record {
  resolve = λ path s. (ok (codes "/dev/zd0"), s);
  mounts = λ device s. (ok s, s);
  format_and_mount = λ device info s. (ok tt, info.mount_path ∷ s);
  make_directory = λ path s. (ok tt, s);
  is_broken_mount = λ path s. false;
  device_of = λ path s. (ok (codes "/dev/zd0", 1), s);
  path_exists = λ path s. (ok true, s);
  unmount = λ path s. (ok tt, []);
  remove_path = λ path s. s;
}

abbrev no_command : Exec (List Str)
no_command command args s = (err plain, s)

abbrev ready : ZfsVolume
ready = record volume { state = codes "Ready" }

abbrev paths : List Str
paths = codes "/pod/a" ∷ []

mounted_elsewhere :
    verify_mount_request no_command mounter (codes "id-a") ready (codes "/pod/b") paths
    ≡ (err (status internal), paths)
unfolding verify_mount_request ◌==◌ zfs_localpv.Zfs.Args.is_dataset
mounted_elsewhere = refl

verify_mount_request-IsFree_example :
    (is_volume_ready ready ≡ true)
    × ((is_empty ready.spec.owner_node_id ≡ true) ⊎ (ready.spec.owner_node_id ≡ codes "id-a"))
    × ((device : Str) × (t : List Str) × (found : List Str) × (get_volume_dev_path no_command
            mounter
            (codes "id-a")
            ready
            paths
          ≡ (ok device, t))
        × ((mounter.mounts device t).0 ≡ ok found)
        × IsFree ready (codes "/pod/a") found true)
unfolding verify_mount_request ◌==◌ zfs_localpv.Zfs.Args.is_dataset
verify_mount_request-IsFree_example =
    verify_mount_request-IsFree no_command mounter (codes "id-a") ready (codes "/pod/a") paths true
      refl
