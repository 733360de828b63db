-- ===== src/Controller/Choice.antt =====
-- pkg/driver/schd_helper.go: the functions that ask the API server, over the maps of Scheduler; and
-- `GetNodeID` of pkg/zfs/volume.go.
use zfs_localpv.Prelude.{
  Str, codes, ◌==◌, List, [], ◌∷◌, Bool, if◌then◌else◌, Dict, lookup, Option, none, some,
}
use zfs_localpv.Prelude.Int.{ℤ}
use zfs_localpv.Api.{Pool, ZfsNode, Result, ok, err, plain}
use zfs_localpv.Zfs.Host.{Ran, ◌>>◌}
use zfs_localpv.Scheduler.{Pattern, pool_for_node}
use zfs_localpv.Scheduler.Maps.{
  volume_weighted_map, capacity_weighted_map, space_weighted_map, suitable_nodes, pool_volume_map,
  pool_weight_map,
}
use zfs_localpv.Controller.Server.{Cluster, wrapped}

abbrev pub id_or_name : Str → Option Str → Str
id_or_name nodename none = nodename
id_or_name nodename (some nodeid) = nodeid

abbrev pub suitable_of : Pattern → ℤ → List ZfsNode → Result (Dict Bool × Bool)
suitable_of pattern size [] = err plain
suitable_of pattern size (node ∷ nodes) = ok (suitable_nodes (node ∷ nodes) pattern size)

module _ {S : Type 0} (api : Cluster S) where
  -- `GetNodeID`
  unfoldable pub get_node_id : Str → S → Ran S Str
  get_node_id nodename s = wrapped (api.node_labels nodename s) >> λ labels t.
      (ok (id_or_name nodename (lookup (codes "openebs.io/nodeid") labels)), t)

  unfoldable pub get_volume_weighted_map : Pattern → S → Ran S (Dict ℤ)
  get_volume_weighted_map pattern s = api.all_volumes s >> λ zvlist t.
      api.zfs_nodes t >> λ nodelist u. (ok (volume_weighted_map zvlist nodelist pattern), u)

  unfoldable pub get_capacity_weighted_map : Pattern → S → Ran S (Dict ℤ)
  get_capacity_weighted_map pattern s =
      api.zfs_nodes s >> λ nodelist t. (ok (capacity_weighted_map nodelist pattern), t)

  unfoldable pub get_space_weighted_map : Pattern → S → Ran S (Dict ℤ)
  get_space_weighted_map pattern s =
      api.zfs_nodes s >> λ nodelist t. (ok (space_weighted_map nodelist pattern), t)

  unfoldable pub get_node_map : Str → Pattern → S → Ran S (Dict ℤ)
  unfolding get_volume_weighted_map get_capacity_weighted_map get_space_weighted_map
  get_node_map schd pattern s =
      if schd == codes "VolumeWeighted"
      then get_volume_weighted_map pattern s
      else if schd == codes "CapacityWeighted"
      then get_capacity_weighted_map pattern s
      else if schd == codes "SpaceWeighted"
      then get_space_weighted_map pattern s
      else get_capacity_weighted_map pattern s

  unfoldable pub get_suitable_nodes : Pattern → ℤ → S → Ran S (Dict Bool × Bool)
  get_suitable_nodes pattern size s =
      api.zfs_nodes s >> λ nodelist t. (suitable_of pattern size nodelist, t)

  unfoldable pub get_pool_volume_map : Str → S → Ran S (Dict ℤ)
  get_pool_volume_map nodeid s =
      api.all_volumes s >> λ zvlist t. (ok (pool_volume_map zvlist nodeid), t)

  unfoldable pub get_pool_map : Str → Str → List Pool → S → Ran S (Dict ℤ)
  unfolding get_pool_volume_map
  get_pool_map schd nodeid pools s =
      if schd == codes "VolumeWeighted"
      then get_pool_volume_map nodeid s
      else (ok (pool_weight_map schd pools), s)

  unfoldable pub resolve_pool : Str → Str → Pattern → ℤ → S → Ran S Str
  unfolding get_pool_map
  resolve_pool schd nodeid pattern min_free s = api.zfs_node nodeid s >> λ node t.
      get_pool_map schd nodeid node.pools t >> λ pmap u.
      (ok (pool_for_node node.pools pattern min_free pmap), u)
