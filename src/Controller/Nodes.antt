-- ===== src/Controller/Nodes.antt =====
-- `CreateZFSVolume`: the nodes that a new volume is tried on, one after the other.
pub mod Delivered
use zfs_localpv.Prelude.{
  ℕ, Str, codes, ◌==◌, List, [], ◌∷◌, ◌++◌, Bool, true, false, ◌||◌, ◌&&◌, not, if◌then◌else◌,
  is_empty, Dict, get_or, lookup, to_lower, split, Option, none, some,
}
use zfs_localpv.Prelude.Int.{ℤ, pos}
use zfs_localpv.Prelude.Decimal.{format_int}
use zfs_localpv.Api.{
  ZfsVolume, ZfsSnapshot, VolumeInfo, Result, ok, err, status, plain, panicked, internal, not_found,
  invalid_argument, already_exists, aborted, failed_precondition, resource_exhausted,
}
use zfs_localpv.Zfs.Host.{Ran, ◌>>◌}
use zfs_localpv.Builder.Volume
use zfs_localpv.Builder.Volume.{◌|>◌}
use zfs_localpv.Scheduler.{Pattern}
use zfs_localpv.Scheduler.Maps.{filter_keep}
use zfs_localpv.Scheduler.Params.{
  Regexps, parse_pool_params, source_pool_allowed, get_volume_type, reserves_space,
}
use zfs_localpv.Controller.Capacity.{get_rounded_capacity}
use zfs_localpv.Controller.Server.{Cluster, or_status, check}
use zfs_localpv.Controller.Delete.{Rpc, validate_request, wrap, create_delete_volume}
use zfs_localpv.Controller.Snapshots.{Helpers}
use zfs_localpv.Controller.Choice.{get_node_map, get_suitable_nodes, get_node_id, resolve_pool}
use zfs_localpv.Controller.Provision.{
  Provision, provisioned, timed_out, not_provisioned, provision_volume, wait_for_vol_destroy,
}
use zfs_localpv.Controller.Request.{
  Source, empty, of_snapshot, of_volume, VolumeRequest, VolumeResponse, Outside, Wanted, parameter,
  validate_volume_create_req, wanted_of, volume_object, placed_object, clone_object, inherited,
}

module _ {S : Type 0} (api : Cluster S) (outside : Outside) (seconds : ℕ) where
  -- the pool of the volume on a node; the empty name is an error
  abbrev pub pool_on : Wanted → Pattern → ℤ → Str → S → Ran S Str
  pool_on wanted pattern min_free nodeid s =
      if is_empty (parameter (codes "poolpattern") wanted)
      then (ok (parameter (codes "poolname") wanted), s)
      else resolve_pool api (parameter (codes "scheduler") wanted) nodeid pattern min_free s
        >> λ pool t. (if is_empty pool then err plain else ok pool, t)

  -- one round of the loop over the nodes, up to `ProvisionVolume`
  abbrev pub object_on : Wanted → Pattern → ℤ → ZfsVolume → Str → S → Ran S ZfsVolume
  object_on wanted pattern min_free vol node s = get_node_id api node s >> λ nodeid t.
      pool_on wanted pattern min_free nodeid t >> λ pool u. (placed_object vol nodeid pool, u)

  -- after the loop: no node has provisioned the volume, so its object is deleted
  abbrev pub give_up : Str → S → Ran S ZfsVolume
  give_up name s = (err (status internal), (api.remove_volume name s).1)

  -- how the loop goes on after `ProvisionVolume`
  abbrev pub next_node : Str → ZfsVolume → Provision × S → (S → Ran S ZfsVolume) → Ran S ZfsVolume
  next_node name vol (provisioned, s) others = (ok vol, s)
  next_node name vol (timed_out e, s) others = give_up name s
  next_node name vol (not_provisioned e, s) others = others s

  abbrev pub try_object : Str → Ran S ZfsVolume → (S → Ran S ZfsVolume) → Ran S ZfsVolume
  try_object name (err e, s) others = others s
  try_object name (ok vol, s) others =
      next_node name vol (provision_volume api seconds vol s) others

  -- the loop over the nodes
  unfoldable pub try_nodes : Wanted → Pattern → ℤ → ZfsVolume → List Str → S → Ran S ZfsVolume
  try_nodes wanted pattern min_free vol [] s = give_up wanted.name s
  try_nodes wanted pattern min_free vol (node ∷ nodes) s =
      try_object wanted.name (object_on wanted pattern min_free vol node s)
        (λ t. try_nodes wanted pattern min_free vol nodes t)

  abbrev pub preferred : VolumeRequest → Wanted → Dict ℤ → Option Str → List Str
  preferred req wanted nmap none = outside.scheduler req nmap
  preferred req wanted nmap (some node) = node ∷ []

  abbrev pub is_reserving : Wanted → Bool
  is_reserving wanted =
      reserves_space (get_volume_type (parameter (codes "fstype") wanted))
        (parameter (codes "thinprovision") wanted)

  abbrev pub some_nodes : Result (List Str) → Result (List Str)
  some_nodes (ok []) = err (status resource_exhausted)
  some_nodes (ok (node ∷ nodes)) = ok (node ∷ nodes)
  some_nodes (err e) = err e

  -- the nodes that are left, once it is known which are suitable
  abbrev pub nodes_left : Wanted → List Str → Dict Bool × Bool → Result (List Str)
  nodes_left wanted nodes (suitable, matched) =
      if not (is_empty (parameter (codes "poolpattern") wanted)) && not matched
      then err (status failed_precondition)
      else if is_reserving wanted
      then some_nodes (ok (filter_keep nodes suitable))
      else ok nodes

  abbrev pub suitable_left : Wanted → Pattern → List Str → S → Ran S (List Str)
  suitable_left wanted pattern nodes s =
      if not (is_empty (parameter (codes "poolpattern") wanted)) || is_reserving wanted
      then or_status internal (get_suitable_nodes api pattern wanted.size s)
        >> (λ suitable t. (nodes_left wanted nodes suitable, t))
      else (ok nodes, s)

  abbrev pub listed : List Str → S → Ran S (List Str)
  listed [] s = (err (status internal), s)
  listed (node ∷ nodes) s = (ok (node ∷ nodes), s)

  abbrev pub wanted_pattern : Wanted → S → Ran S Pattern
  wanted_pattern wanted s = (
    parse_pool_params outside.regexps (parameter (codes "poolname") wanted)
        (parameter (codes "poolpattern") wanted),
    s,
  )

  -- the nodes that the volume is tried on
  abbrev pub candidates : VolumeRequest → Wanted → Pattern → S → Ran S (List Str)
  candidates req wanted pattern s =
      or_status internal (get_node_map api (parameter (codes "scheduler") wanted) pattern s)
      >> (λ nmap t. listed (preferred req wanted nmap (lookup (codes "node") wanted.parameters)) t)
      >> suitable_left wanted pattern

  abbrev pub build_and_try : Wanted → Pattern → List Str → S → Ran S ZfsVolume
  build_and_try wanted pattern nodes s = or_status internal (volume_object wanted, s) >> λ vol t.
      try_nodes wanted pattern (if is_reserving wanted then wanted.size else pos 0) vol nodes t

  -- `CreateZFSVolume`, where the volume is not there
  abbrev pub create_on_nodes : VolumeRequest → Wanted → S → Ran S ZfsVolume
  create_on_nodes req wanted s =
      or_status invalid_argument (wanted_pattern wanted s) >> λ pattern t.
      candidates req wanted pattern t >> build_and_try wanted pattern

  abbrev pub wait_if_asked : Wanted → Option Str → S → Ran S (Unit {0})
  wait_if_asked wanted none s = (ok tt, s)
  wait_if_asked wanted (some _) s = wait_for_vol_destroy api seconds wanted.name s

  -- `CreateZFSVolume`, where the volume is there
  abbrev pub create_again : VolumeRequest → Wanted → ZfsVolume → S → Ran S ZfsVolume
  create_again req wanted vol s =
      if vol.deleting
      then wait_if_asked wanted (lookup (codes "wait") wanted.parameters) s
        >> (λ _ t. create_on_nodes req wanted t)
      else if not (vol.spec.capacity == format_int wanted.size)
      then (err (status already_exists), s)
      else if not (vol.state == codes "Ready")
      then (err (status aborted), s)
      else (ok vol, s)

  abbrev pub if_got :
      Ran S ZfsVolume → (ZfsVolume → S → Ran S ZfsVolume) → (S → Ran S ZfsVolume) → Ran S ZfsVolume
  if_got (ok vol, s) found other = found vol s
  if_got (err e, s) found other = other s

  -- `CreateZFSVolume`
  unfoldable pub create_zfs_volume : VolumeRequest → Wanted → S → Ran S ZfsVolume
  unfolding try_nodes volume_object placed_object
  create_zfs_volume req wanted s =
      if_got (api.read_volume wanted.name s) (create_again req wanted) (create_on_nodes req wanted)
