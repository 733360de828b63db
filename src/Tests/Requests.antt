-- ===== src/Tests/Requests.antt =====
-- Requests to the CSI controller against the server of `Cluster`.
use zfs_localpv.Prelude.{
  codes, ◌==◌, [], ◌∷◌, ◌++◌, ◌≡◌, refl, true, false, none, some, get_or, lookup, to_lower, insert,
}
use zfs_localpv.Prelude.Int.{pos, sub64, add64}
use zfs_localpv.Prelude.Decimal.{format_int, parse_int}
use zfs_localpv.Api.{ZfsVolume, ZfsSnapshot, ok}
use zfs_localpv.Zfs.Host.{succeeded}
use zfs_localpv.Zfs.UserProperty.{validate}
use zfs_localpv.Scheduler.Params.{parse_pool_params, reserves_space}
use zfs_localpv.Controller.Nodes.{create_zfs_volume}
use zfs_localpv.Controller.Choice.{get_node_map, get_node_id}
use zfs_localpv.Controller.Capacity.{get_rounded_capacity}
use zfs_localpv.Builder.Volume.{merge}
use zfs_localpv.Controller.Delete.{
  new_controller_capabilities, controller_delete_volume, controller_delete_snapshot, is_marked,
}
use zfs_localpv.Controller.Delete.Kept.{
  Kept, Handled, controller_delete_volume-Kept, controller_delete_volume-Handled,
}
use zfs_localpv.Controller.Delete.Last.{controller_delete_snapshot-unmarked}
use zfs_localpv.Controller.Snapshots.{
  Helpers, SnapshotRequest, SnapshotResponse, snapshot_object, pending_snapshot,
}
use zfs_localpv.Controller.Snapshots.Object.{pending_snapshot-validate}
use zfs_localpv.Controller.Provision.{provisioned, provision_volume}
use zfs_localpv.Controller.Provision.Ready.{IsReady, provision_volume-IsReady}
use zfs_localpv.Controller.Request.{
  VolumeRequest, VolumeResponse, Outside, empty, validate_volume_create_req,
}
use zfs_localpv.Controller.Create.{controller_create_volume}
use zfs_localpv.Controller.Create.Spec.{Describes, controller_create_volume-Describes}
use zfs_localpv.Controller.Expand.{controller_expand_volume}
use zfs_localpv.Controller.Expand.Grown.{HasAtLeast, controller_expand_volume-HasAtLeast}
use zfs_localpv.Tests.Volumes.{thick, snapshot, no_info}
use zfs_localpv.Tests.Named.{find, set}
use zfs_localpv.Tests.Cluster.{World, server, server_volumes, server_snapshots, server-ClusterLaws}

abbrev ready_thick : ZfsVolume
ready_thick = record thick {
  state = codes "Ready";
  finalizers = codes "zfs.openebs.io/finalizer" ∷ [];
}

abbrev dying : ZfsSnapshot
dying = record snapshot { name = codes "t"; deleting = true }

-- a ready volume, without a snapshot and with two, of which one is being deleted
abbrev lone : World
lone = record { volumes = ready_thick ∷ []; snapshots = [] }

abbrev pair : World
pair = record { volumes = ready_thick ∷ []; snapshots = snapshot ∷ dying ∷ [] }

present : server_volumes pair (codes "pvc-1") ≡ some ready_thick
unfolding find ◌==◌
present = refl

first_present : server_snapshots pair (codes "s") ≡ some snapshot
unfolding find ◌==◌
first_present = refl

label : get_or (codes "openebs.io/persistent-volume") snapshot.labels [] ≡ codes "pvc-1"
unfolding get_or ◌==◌
label = refl

controller_delete_volume-Kept_example : Kept ready_thick (
    server_volumes
      (controller_delete_volume server new_controller_capabilities (codes "pvc-1") pair).1
      (codes "pvc-1"))
unfolding to_lower
controller_delete_volume-Kept_example =
    controller_delete_volume-Kept server-ClusterLaws new_controller_capabilities (codes "pvc-1")
      pair ready_thick present (codes "s", snapshot, first_present, label)

removes :
    succeeded (controller_delete_volume server new_controller_capabilities (codes "pvc-1") lone)
    ≡ true
unfolding controller_delete_volume new_controller_capabilities to_lower find ◌==◌ set
removes = refl

controller_delete_volume-Handled_example : Handled (
    server_volumes
      (controller_delete_volume server new_controller_capabilities (codes "pvc-1") lone).1
      (to_lower (codes "pvc-1")))
controller_delete_volume-Handled_example =
    controller_delete_volume-Handled server-ClusterLaws new_controller_capabilities (codes "pvc-1")
      lone removes

unmarked :
    (vol : ZfsVolume) → server_volumes pair (codes "pvc-1") ≡ some vol → is_marked vol ≡ false
unfolding find ◌==◌ get_or
unmarked vol h = let one : ready_thick ≡ vol = cc in rw (← one) refl

controller_delete_snapshot-unmarked_example :
    server_volumes
      (controller_delete_snapshot server (codes "pvc-1" ++ b'@' ∷ codes "s") pair).1
      (codes "pvc-1")
    ≡ server_volumes pair (codes "pvc-1")
controller_delete_snapshot-unmarked_example =
    controller_delete_snapshot-unmarked server-ClusterLaws (codes "pvc-1") (codes "s") pair refl
      refl unmarked (codes "pvc-1")

-- keys in lower case, as the examples write them
abbrev helpers : Helpers
helpers = record {
  insensitive_parameter = λ parameters key. get_or key parameters [];
  insensitive_map = λ parameters. parameters;
}

abbrev snapshot_request : SnapshotRequest
snapshot_request = record {
  name = codes "u";
  source_volume_id = codes "pvc-1";
  parameters = (codes "wait", codes "true") ∷ [];
}

abbrev answer : SnapshotResponse
answer = record {
  source_volume_id = codes "pvc-1";
  snapshot_id = codes "pvc-1@u";
  size = pos 4096;
  ready = true;
}

abbrev built : ZfsSnapshot
built = record {
  name = codes "u";
  labels = (codes "openebs.io/persistent-volume", codes "pvc-1") ∷ [];
  finalizers = [];
  deleting = false;
  spec = record no_info {
    user_properties =
        (codes "openebs.io:vs-name", [])
        ∷ (codes "openebs.io:vs-namespace", [])
        ∷ (codes "openebs.io:vsc-name", [])
        ∷ [];
  };
  state = [];
}

builds : snapshot_object helpers (codes "u") [] ready_thick ≡ ok built
unfolding snapshot_object get_or lookup insert merge ◌==◌
builds = refl

pending_snapshot-validate_example : validate (pending_snapshot ready_thick built).spec ≡ ok tt
pending_snapshot-validate_example =
    pending_snapshot-validate helpers (codes "u") [] ready_thick built refl builds

-- a thin dataset, on a node that is named, with no pool reported
abbrev outside : Outside
outside = record {
  helpers = helpers;
  regexps = record { compile = λ s. some (λ t. true); quote_meta = λ s. s };
  scheduler = λ req nmap. [];
}

abbrev volume_request : VolumeRequest
volume_request = record {
  name = codes "PVC-2";
  required_bytes = some (pos 1000000);
  parameters =
      (codes "poolname", codes "tank")
      ∷ (codes "fstype", codes "zfs")
      ∷ (codes "node", codes "n1")
      ∷ [];
  source = empty;
  has_capabilities = true;
}

abbrev created : VolumeResponse
created = record {
  volume_id = codes "pvc-2";
  capacity = pos 1048576;
  node = codes "n1";
  pool_name = codes "tank";
  format_options = [];
}

creates :
    (controller_create_volume server outside 3 new_controller_capabilities volume_request lone).0
    ≡ ok created
unfolding controller_create_volume new_controller_capabilities to_lower find ◌==◌ set get_or lookup
    create_zfs_volume parse_pool_params get_node_map reserves_space format_int get_rounded_capacity
    sub64 add64 get_node_id provision_volume
creates = refl

controller_create_volume-Describes_example :
    Describes server_volumes created
      (to_lower (codes "PVC-2"))
      (controller_create_volume server outside 3 new_controller_capabilities volume_request lone).1
controller_create_volume-Describes_example =
    controller_create_volume-Describes server-ClusterLaws outside 3 new_controller_capabilities
      volume_request lone created creates

provisions : (provision_volume server 3 ready_thick lone).0 ≡ provisioned
unfolding provision_volume find ◌==◌ set
provisions = refl

provision_volume-IsReady_example :
    IsReady server_volumes
      (codes "pvc-1")
      ready_thick.spec
      (provision_volume server 3 ready_thick lone).1
provision_volume-IsReady_example =
    provision_volume-IsReady server-ClusterLaws 3 ready_thick lone provisions

abbrev no_range : VolumeRequest
no_range = record volume_request { required_bytes = none }

accepted : validate_volume_create_req new_controller_capabilities no_range ≡ ok tt
unfolding validate_volume_create_req new_controller_capabilities
accepted = refl

size : parse_int ready_thick.spec.capacity ≡ some (pos 4096)
unfolding parse_int
size = refl

present_upper : server_volumes pair (to_lower (codes "PVC-1")) ≡ some ready_thick
unfolding find ◌==◌ to_lower
present_upper = refl

controller_expand_volume-HasAtLeast_example :
    HasAtLeast server_volumes
      (to_lower (codes "PVC-1"))
      (pos 4096)
      (controller_expand_volume server (codes "PVC-1") (some (pos 5000000)) pair).1
controller_expand_volume-HasAtLeast_example =
    controller_expand_volume-HasAtLeast server-ClusterLaws (codes "PVC-1") (some (pos 5000000)) pair
      ready_thick (pos 4096) present_upper refl size
