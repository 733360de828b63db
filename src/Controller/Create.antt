-- ===== src/Controller/Create.antt =====
-- `CreateVolClone`, `CreateSnapClone` and `CreateVolume`. What stands between `LockVolume` and
-- `unlock` runs as one sequence.
pub mod Spec
pub mod Range
use zfs_localpv.Prelude.{
  ℕ, Str, codes, ◌==◌, List, [], ◌∷◌, ◌++◌, Bool, true, false, ◌||◌, ◌&&◌, not, if◌then◌else◌,
  is_empty, Dict, get_or, lookup, to_lower, split, Option, none, some,
}
use zfs_localpv.Prelude.Int.{ℤ, pos}
use zfs_localpv.Prelude.Decimal.{format_int}
use zfs_localpv.Api.{
  ZfsVolume, ZfsSnapshot, VolumeInfo, Result, ok, err, status, plain, panicked, internal, not_found,
  invalid_argument, already_exists, aborted, failed_precondition, resource_exhausted,
}
use zfs_localpv.Zfs.Host.{Ran, ◌>>◌}
use zfs_localpv.Builder.Volume
use zfs_localpv.Builder.Volume.{◌|>◌}
use zfs_localpv.Scheduler.{Pattern}
use zfs_localpv.Scheduler.Maps.{filter_keep}
use zfs_localpv.Scheduler.Params.{
  Regexps, parse_pool_params, source_pool_allowed, get_volume_type, reserves_space,
}
use zfs_localpv.Controller.Capacity.{get_rounded_capacity}
use zfs_localpv.Controller.Server.{Cluster, or_status, check}
use zfs_localpv.Controller.Delete.{Rpc, validate_request, wrap, create_delete_volume}
use zfs_localpv.Controller.Snapshots.{Helpers}
use zfs_localpv.Controller.Choice.{get_node_map, get_suitable_nodes, get_node_id, resolve_pool}
use zfs_localpv.Controller.Provision.{
  Provision, provisioned, timed_out, not_provisioned, provision_volume, wait_for_vol_destroy,
}
use zfs_localpv.Controller.Request.{
  Source, empty, of_snapshot, of_volume, VolumeRequest, VolumeResponse, Outside, Wanted, parameter,
  validate_volume_create_req, wanted_of, volume_object, placed_object, clone_object, inherited,
}
use zfs_localpv.Controller.Nodes.{create_zfs_volume}

abbrev pub first_snapshot : List Str → Option Str
first_snapshot (volume ∷ name ∷ []) = some name
first_snapshot _ = none

-- `GetRequiredBytes`, which takes a nil range
abbrev pub bytes_or_zero : Option ℤ → ℤ
bytes_or_zero none = pos 0
bytes_or_zero (some bytes) = bytes

module _ {S : Type 0} (api : Cluster S) (outside : Outside) (seconds : ℕ) where
  abbrev pub provisioned_or : ZfsVolume → Provision × S → Ran S ZfsVolume
  provisioned_or vol (provisioned, s) = (ok vol, s)
  provisioned_or vol (timed_out e, s) = (err (status internal), s)
  provisioned_or vol (not_provisioned e, s) = (err (status internal), s)

  abbrev pub provision_clone : VolumeInfo → Str → Result ZfsVolume → S → Ran S ZfsVolume
  provision_clone spec snap_name (err e) s = (err e, s)
  provision_clone spec snap_name (ok vol) s =
      let clone = inherited vol spec snap_name in
      provisioned_or clone (provision_volume api seconds clone s)

  -- The checks of a clone against its source, and the clone. A clone stays in the pool of its
  -- source.
  abbrev pub clone_from : Wanted → Pattern → Str → Dict Str → VolumeInfo → Str → S → Ran S ZfsVolume
  clone_from wanted pattern poolname labels spec snap_name s =
      if not (source_pool_allowed spec.pool_name poolname pattern)
      then (err (status invalid_argument), s)
      else if not (spec.capacity == format_int wanted.size)
      then (err (status internal), s)
      else provision_clone spec snap_name (clone_object wanted labels) s

  abbrev pub insensitive : VolumeRequest → Str → Str
  insensitive req key = outside.helpers.insensitive_parameter req.parameters key

  abbrev pub clone_pattern : VolumeRequest → S → Ran S Pattern
  clone_pattern req s = or_status invalid_argument (
    parse_pool_params outside.regexps (insensitive req (codes "poolname"))
        (insensitive req (codes "poolpattern")),
    s,
  )

  -- `CreateVolClone`
  unfoldable pub create_vol_clone : VolumeRequest → Wanted → Str → S → Ran S ZfsVolume
  unfolding clone_object inherited
  create_vol_clone req wanted src_vol s = clone_pattern req s >> λ pattern t.
      or_status not_found (api.read_volume src_vol t) >> λ vol u.
      clone_from wanted pattern (insensitive req (codes "poolname"))
        ((codes "openebs.io/source-volume", vol.name) ∷ []) vol.spec
        (vol.name ++ (codes "@" ++ wanted.name)) u

  abbrev pub snapshot_named : Option Str → S → Ran S ZfsSnapshot
  snapshot_named none s = (err (status not_found), s)
  snapshot_named (some name) s = or_status not_found (api.read_snapshot name s)

  -- `CreateSnapClone`
  unfoldable pub create_snap_clone : VolumeRequest → Wanted → Str → S → Ran S ZfsVolume
  unfolding clone_object inherited split
  create_snap_clone req wanted snapshot s = clone_pattern req s >> λ pattern t.
      snapshot_named (first_snapshot (split b'@' snapshot)) t >> λ snap u.
      clone_from wanted pattern (insensitive req (codes "poolname")) [] snap.spec
        (to_lower snapshot) u

  abbrev pub from_source : VolumeRequest → Wanted → Source → S → Ran S ZfsVolume
  from_source req wanted empty s = create_zfs_volume api outside seconds req wanted s
  from_source req wanted (of_snapshot id) s = create_snap_clone req wanted id s
  from_source req wanted (of_volume id) s = create_vol_clone req wanted id s

  -- Each of the three reads the bytes of the capacity range through a pointer, which is nil where
  -- the request has no range.
  abbrev pub create_from : VolumeRequest → Option ℤ → S → Ran S ZfsVolume
  create_from req none s = (err panicked, s)
  create_from req (some bytes) s =
      from_source req (wanted_of outside.helpers req bytes) req.source s

  abbrev pub volume_response : VolumeRequest → ZfsVolume → VolumeResponse
  volume_response req vol = record {
    volume_id = to_lower req.name;
    capacity = get_rounded_capacity (bytes_or_zero req.required_bytes);
    node = vol.spec.owner_node_id;
    pool_name = vol.spec.pool_name;
    format_options = insensitive req (codes "formatoptions");
  }

  -- `CreateVolume`
  unfoldable pub controller_create_volume : List Rpc → VolumeRequest → S → Ran S VolumeResponse
  unfolding validate_volume_create_req wanted_of create_vol_clone create_snap_clone
  controller_create_volume capabilities req s =
      check (validate_volume_create_req capabilities req) s
      >> (λ _ t. create_from req req.required_bytes t)
      >> λ vol t. (ok (volume_response req vol), t)
