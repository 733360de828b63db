-- ===== src/Lib.antt =====
-- A model of the OpenEBS ZFS local volume driver (zfs-localpv), a CSI driver in Go, with the theorems
-- that say what its parts guarantee.
--
-- The program has two halves that meet in Kubernetes objects. The controller (pkg/driver/controller.go)
-- answers the CSI calls: it picks a node and a pool (pkg/driver/schd_helper.go) under a lock on the
-- volume's name (pkg/driver/volume_lock.go) and writes ZFSVolume and ZFSSnapshot objects. The node
-- agent (pkg/mgmt) watches these objects and runs the zfs command (pkg/zfs) until the node agrees.
--
-- Which file models which part:
--
-- - Prelude and its children: Boolean tests, Go strings as lists of bytes, lists, maps as association
--   lists, and int64 with its wrap-around written out (Prelude/Int).
-- - Api: the objects of pkg/apis/openebs.io/zfs/v1, as records, and the errors that control flow reads.
-- - Scheduler: maxFreePool and poolForNode of pkg/driver/schd_helper.go, a loop body as a step
--   function. Scheduler/Maps has k8sNodeName, poolRoot, suitableNodes, filterKeep and the weight maps
--   (capacityWeightedMap, spaceWeightedMap, volumeWeightedMap, poolWeightMap, poolVolumeMap),
--   Scheduler/Params has parsePoolParams, sourcePoolAllowed, reservesSpace and GetVolumeType. The
--   regular expressions of Go's library are a parameter (Regexps). The other children hold theorems.
-- - Lock: volumeLock of pkg/driver/volume_lock.go. The set of locked names and any number of
--   requests; Step is one request locking or unlocking one name, or starting, and Reach is a sequence
--   of such steps in any order.
-- - Zfs/Args: the argument builders of pkg/zfs/zfs_util.go, and Zfs/Args/Transfer those of backup and
--   restore. Zfs/Args/Parse is a reader of zfs arguments; the builders are held to it.
-- - Zfs/Host: the zfs command as a parameter, exec, with what zfs(8) documents of list, create, clone,
--   snapshot and destroy as the laws ZfsCommand: zfs list may fail for what is there, and the laws of
--   zfs destroy are about one operand, with no flag or with -r. A state stands for everything outside
--   the driver.
-- - Zfs/Volumes: getVolume, CreateVolume, CreateClone, CreateSnapshot, DestroySnapshot, DestroyVolume
--   and SetVolumeProp of pkg/zfs/zfs_util.go. The new filesystem UUID of lib-csi is a parameter.
-- - Zfs/Resize: GetVolumeProperty and ResizeZFSVolume; handleVolResize is a parameter.
-- - Zfs/UserProperty: ValidateUserProperty of pkg/zfs/util/userprop.go and VolumeInfo.Validate.
-- - Mgmt/Server: GetUserFinalizers, IsVolumeReady and the object of UpdateZvolInfo of
--   pkg/zfs/volume.go, and the laws of the API server's Update. Mgmt/Volumes: syncZV of
--   pkg/mgmt/volume/volume.go. Mgmt/Snapshots: syncSnap of pkg/mgmt/snapshot/snapshot.go and the
--   object of UpdateSnapInfo. Mgmt/Settled and Mgmt/Snapped hold the theorems.
-- - Mgmt/Nodes: syncNode of pkg/mgmt/zfsnode/zfsnode.go and ListZFSPool, for a namespace that is not
--   empty, with its theorem in Mgmt/Nodes/Reported.
-- - Zfs/Backup: CreateBackup and DestoryBackup of pkg/zfs/zfs_util.go, and syncBkp of
--   pkg/mgmt/backup/backup.go with its theorem in Mgmt/Backups. The pipe of zfs send into nc and the
--   API server's Get and Update are parameters.
-- - Zfs/Restore: CreateRestore and getDevice of pkg/zfs/zfs_util.go, and syncRestore of
--   pkg/mgmt/restore/restore.go. getDevice looks for a device until five seconds have passed: the
--   number of looks that fit is an argument, and running out of them is its error.
-- - Zfs/Mount: MountFilesystem, MountDataset, MountZvol, UmountVolume and verifyMountRequest of
--   pkg/zfs/mount.go, with its theorem in Zfs/Mount/Once. The mount library of Kubernetes and the file
--   operations are the parameter Mounter.
-- - Zfs/Pools: decodeListOutput of pkg/zfs/zfs_util.go, with strconv's ParseInt in Prelude/Decimal.
-- - Builder: the builders of pkg/builder/volbuilder/build.go and pkg/builder/snapbuilder/build.go.
-- - Controller: pkg/driver/controller.go. Controller/Server is what the controller asks of the API
--   server, a record of calls, with the laws that are relied on: they speak of one request while no
--   other client changes the objects that it reads, but for the node agent while the request sleeps.
--   A call that fails may have made its change or not. Controller/Capacity has getRoundedCapacity;
--   Controller/Delete has DeleteVolume and DeleteSnapshot; Controller/Snapshots has CreateSnapshot;
--   Controller/Choice has the functions of schd_helper.go that ask the API server, and GetNodeID;
--   Controller/Provision has ProvisionVolume with its wait, and waitForVolDestroy of
--   pkg/zfs/volume.go and controller.go; Controller/Request has the objects that CreateVolume builds,
--   Controller/Nodes has CreateZFSVolume, Controller/Create has the clones and CreateVolume,
--   Controller/Expand has ControllerExpandVolume and ValidateVolumeCapabilities, and
--   Controller/Available has GetCapacity with filterNodesByTopology, over the informers' caches. What
--   a request does while it holds the lock of its volume is one sequence of calls; Lock is about the
--   lock. Their children hold the theorems.
-- - Gc: the backup garbage collector of pkg/driver/backup_gc.go, with its theorems in Gc/Children. The
--   informer's cache, with its index, is a parameter.
-- - Tests: runs on small inputs, and each theorem at an input that meets its conditions. Tests/Node is
--   a node and an API server that meet the laws of the node agent, Tests/Cluster an API server that
--   meets those of the controller.
--
-- Every loop of the source that is modelled runs over a list, so no fuel is needed, but for loops that
-- wait. getDevice, waitForReadySnapshot and checkVolCreation end at a deadline: the number of rounds
-- that fit is an argument, and running out of them is their error. waitForVolDestroy has no end of its
-- own: it is watched for a number of rounds, after which it is still waiting, an outcome of the
-- model. The loop of LockVolume, which waits, is a step that is enabled when the name is free. A Go map
-- is visited in an order that Go leaves open: it is a list here, and the theorems hold for every order.
--
-- Not modelled: the CSI calls of the node service, event handlers and work queues, MountBlock, and the
-- builders of backups and restores. Message texts, logs, events and metrics are left
-- out, since nothing reads them. The generated clients, the gRPC server, the start-up code and the
-- pipes between processes are input and output. The scheduler and the parameter helpers of lib-csi are
-- parameters.
pub mod Prelude
pub mod Api
pub mod Scheduler
pub mod Lock
pub mod Zfs
pub mod Mgmt
pub mod Controller
pub mod Builder
pub mod Gc
pub mod Tests
