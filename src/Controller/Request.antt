-- ===== src/Controller/Request.antt =====
-- The requests of `CreateVolume`, and the volume objects that are built for them. The order that
-- the scheduler of lib-csi gives the nodes is a parameter, and so are the helpers of lib-csi that
-- read parameters and the `regexp` package.
pub mod Built
use zfs_localpv.Prelude.{
  ℕ, Str, codes, ◌==◌, List, [], ◌∷◌, ◌++◌, Bool, true, false, ◌||◌, ◌&&◌, not, if◌then◌else◌,
  is_empty, Dict, get_or, lookup, to_lower, split, Option, none, some,
}
use zfs_localpv.Prelude.Int.{ℤ, pos}
use zfs_localpv.Prelude.Decimal.{format_int}
use zfs_localpv.Api.{
  ZfsVolume, ZfsSnapshot, VolumeInfo, Result, ok, err, status, plain, panicked, internal, not_found,
  invalid_argument, already_exists, aborted, failed_precondition, resource_exhausted,
}
use zfs_localpv.Zfs.Host.{Ran, ◌>>◌}
use zfs_localpv.Zfs.UserProperty.{validate_user_property}
use zfs_localpv.Builder.Volume
use zfs_localpv.Builder.Volume.{◌|>◌}
use zfs_localpv.Scheduler.{Pattern}
use zfs_localpv.Scheduler.Maps.{filter_keep}
use zfs_localpv.Scheduler.Params.{
  Regexps, parse_pool_params, source_pool_allowed, get_volume_type, reserves_space,
}
use zfs_localpv.Controller.Capacity.{get_rounded_capacity}
use zfs_localpv.Controller.Server.{Cluster, or_status, check}
use zfs_localpv.Controller.Delete.{Rpc, validate_request, wrap, create_delete_volume}
use zfs_localpv.Controller.Snapshots.{Helpers}
use zfs_localpv.Controller.Choice.{get_node_map, get_suitable_nodes, get_node_id, resolve_pool}
use zfs_localpv.Controller.Provision.{
  Provision, provisioned, timed_out, not_provisioned, provision_volume, wait_for_vol_destroy,
}

-- the content source of a request
pub data Source : Type 0 where
  empty : Source
  of_snapshot : Str → Source
  of_volume : Str → Source

-- `CreateVolumeRequest`; `required_bytes` is `none` where the request has no capacity range
pub record VolumeRequest : Type 0 where
  pub name : Str
  pub required_bytes : Option ℤ
  pub parameters : Dict Str
  pub source : Source
  pub has_capabilities : Bool

-- `CreateVolumeResponse`; `node` is the value of the topology key
pub record VolumeResponse : Type 0 where
  pub volume_id : Str
  pub capacity : ℤ
  pub node : Str
  pub pool_name : Str
  pub format_options : Str

-- the outside of the driver that a creation uses
pub record Outside : Type 0 where
  pub helpers : Helpers
  pub regexps : Regexps
  pub scheduler : VolumeRequest → Dict ℤ → List Str

abbrev pub required : Result (Unit {0}) → Bool → Result (Unit {0})
required (err e) missing = err plain
required (ok _) missing = if missing then err (status invalid_argument) else ok tt

-- `validateVolumeCreateReq`
unfoldable pub validate_volume_create_req : List Rpc → VolumeRequest → Result (Unit {0})
unfolding validate_request
validate_volume_create_req capabilities req =
    required (validate_request capabilities create_delete_volume)
      (is_empty req.name || not req.has_capabilities)

-- what `CreateZFSVolume` reads of the request
pub record Wanted : Type 0 where
  pub name : Str
  pub size : ℤ
  pub parameters : Dict Str
  pub pvc_name : Str
  pub pvc_namespace : Str
  pub pv_name : Str

abbrev pub parameter : Str → Wanted → Str
parameter key wanted = get_or key wanted.parameters []

unfoldable pub wanted_of : Helpers → VolumeRequest → ℤ → Wanted
wanted_of helpers req bytes = record {
  name = to_lower req.name;
  size = get_rounded_capacity bytes;
  parameters = helpers.insensitive_map req.parameters;
  pvc_name = helpers.insensitive_parameter req.parameters (codes "csi.storage.k8s.io/pvc/name");
  pvc_namespace =
      helpers.insensitive_parameter req.parameters (codes "csi.storage.k8s.io/pvc/namespace");
  pv_name = helpers.insensitive_parameter req.parameters (codes "csi.storage.k8s.io/pv/name");
}

-- a new volume with its name and its reserved user properties
unfoldable pub named_builder : Wanted → Volume.VolumeBuilder
unfolding Volume.new_builder Volume.with_name Volume.with_pvc_name Volume.with_pvc_namespace
    Volume.with_pv_name validate_user_property
named_builder wanted =
    Volume.new_builder
    |> Volume.with_name wanted.name
    |> Volume.with_pvc_name wanted.pvc_name
    |> Volume.with_pvc_namespace wanted.pvc_namespace
    |> Volume.with_pv_name wanted.pv_name

-- the object that `CreateZFSVolume` builds
unfoldable pub volume_object : Wanted → Result ZfsVolume
unfolding named_builder get_volume_type Volume.build Volume.with_capacity Volume.with_record_size
    Volume.with_vol_block_size Volume.with_dedup Volume.with_encryption Volume.with_key_format
    Volume.with_key_location Volume.with_thin_prov Volume.with_volume_type Volume.with_volume_status
    Volume.with_fs_type Volume.with_quota_type Volume.with_shared Volume.with_a_time
    Volume.with_log_bias Volume.with_compression
volume_object wanted = Volume.build (
    named_builder wanted
    |> Volume.with_capacity (format_int wanted.size)
    |> Volume.with_record_size (parameter (codes "recordsize") wanted)
    |> Volume.with_vol_block_size (parameter (codes "volblocksize") wanted)
    |> Volume.with_dedup (parameter (codes "dedup") wanted)
    |> Volume.with_encryption (parameter (codes "encryption") wanted)
    |> Volume.with_key_format (parameter (codes "keyformat") wanted)
    |> Volume.with_key_location (parameter (codes "keylocation") wanted)
    |> Volume.with_thin_prov (parameter (codes "thinprovision") wanted)
    |> Volume.with_volume_type (get_volume_type (parameter (codes "fstype") wanted))
    |> Volume.with_volume_status (codes "Pending")
    |> Volume.with_fs_type (parameter (codes "fstype") wanted)
    |> Volume.with_quota_type (parameter (codes "quotatype") wanted)
    |> Volume.with_shared (parameter (codes "shared") wanted)
    |> Volume.with_a_time (parameter (codes "atime") wanted)
    |> Volume.with_log_bias (parameter (codes "logbias") wanted)
    |> Volume.with_compression (parameter (codes "compression") wanted))

-- the object on a node and a pool
unfoldable pub placed_object : ZfsVolume → Str → Str → Result ZfsVolume
unfolding Volume.build Volume.build_from Volume.with_owner_node_id Volume.with_pool_name
    Volume.with_volume_status
placed_object vol nodeid pool = Volume.build (
    Volume.build_from vol
    |> Volume.with_owner_node_id nodeid
    |> Volume.with_pool_name pool
    |> Volume.with_volume_status (codes "Pending"))

-- the object of a clone, with the labels of its source
unfoldable pub clone_object : Wanted → Dict Str → Result ZfsVolume
unfolding named_builder Volume.build Volume.with_volume_status Volume.with_labels
clone_object wanted labels = Volume.build (
    named_builder wanted
    |> Volume.with_volume_status (codes "Pending")
    |> Volume.with_labels labels)

-- A clone inherits a spec, but for the user properties.
unfoldable pub inherited : ZfsVolume → VolumeInfo → Str → ZfsVolume
inherited vol spec snap_name = record vol {
  spec = record spec { user_properties = vol.spec.user_properties; snap_name = snap_name };
}
