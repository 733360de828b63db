-- ===== src/Scheduler/Maps.antt =====
-- The loops of pkg/driver/schd_helper.go over nodes and volumes, which build Go maps: a weight per
-- node or pool, and the set of nodes with room. Reads of the API server are in
-- Controller/Choice.
use zfs_localpv.Prelude.{
  Str, codes, ◌==◌, List, [], ◌∷◌, ◌++◌, Bool, true, false, none, some, not, is_empty,
  if◌then◌else◌, Dict, get_or, insert, lookup, nat_eq,
}
use zfs_localpv.Prelude.Int.{ℤ, pos, max_int64, add64, sub64, ltb_ℤ}
use zfs_localpv.Api.{Pool, OwnerReference, ZfsNode, ZfsVolume}
use zfs_localpv.Scheduler.{Pattern, max_free_pool}

-- the loop of `k8sNodeName`
unfoldable pub owner_name : List OwnerReference → Str → Str
owner_name [] name = name
owner_name (ref ∷ refs) name = if ref.kind == codes "Node" then ref.name else owner_name refs name

-- `k8sNodeName`
unfoldable pub k8s_node_name : ZfsNode → Str
unfolding owner_name
k8s_node_name node = owner_name node.owner_references node.name

-- `poolRoot`: what stands before the first `/`
unfoldable pub pool_root : Str → Str
pool_root [] = []
pool_root (c ∷ s) = let rest = pool_root s in if nat_eq c b'/' then [] else c ∷ rest

-- the loop of `suitableNodes`, on `suitable` and `matched`
unfoldable pub suitable_step : Pattern → ℤ → Dict Bool × Bool → ZfsNode → Dict Bool × Bool
unfolding k8s_node_name
suitable_step match size (suitable, matched) node =
    let (pool, free) = max_free_pool node.pools match in
    if is_empty pool
    then (suitable, matched)
    else if ltb_ℤ size free
    then (insert (k8s_node_name node) true suitable, true)
    else (suitable, true)

unfoldable pub suitable_loop : Pattern → ℤ → Dict Bool × Bool → List ZfsNode → Dict Bool × Bool
unfolding suitable_step
suitable_loop match size st [] = st
suitable_loop match size st (node ∷ nodes) =
    suitable_loop match size (suitable_step match size st node) nodes

-- `suitableNodes`
unfoldable pub suitable_nodes : List ZfsNode → Pattern → ℤ → Dict Bool × Bool
unfolding suitable_loop
suitable_nodes nodes match size = suitable_loop match size ([], false) nodes

-- the loop of `filterKeep`, on `filtered`
unfoldable pub filter_keep_loop : Dict Bool → List Str → List Str → List Str
filter_keep_loop keep filtered [] = filtered
filter_keep_loop keep filtered (node ∷ nodes) =
    filter_keep_loop keep (if get_or node keep false then filtered ++ node ∷ [] else filtered) nodes

-- `filterKeep`
unfoldable pub filter_keep : List Str → Dict Bool → List Str
unfolding filter_keep_loop
filter_keep nodes keep = filter_keep_loop keep [] nodes

-- `m[k] += w` on an int64
abbrev pub add_to : Str → ℤ → Dict ℤ → Dict ℤ
add_to k w m = insert k (add64 (get_or k m (pos 0)) w) m

-- the inner loop of `capacityWeightedMap`
unfoldable pub capacity_pools : Pattern → Str → Dict ℤ → List Pool → Dict ℤ
capacity_pools match name nmap [] = nmap
capacity_pools match name nmap (pool ∷ pools) =
    capacity_pools match name (if match pool.name then add_to name pool.used nmap else nmap) pools

unfoldable pub capacity_loop : Pattern → Dict ℤ → List ZfsNode → Dict ℤ
unfolding capacity_pools
capacity_loop match nmap [] = nmap
capacity_loop match nmap (node ∷ nodes) =
    capacity_loop match (capacity_pools match (k8s_node_name node) nmap node.pools) nodes

-- `capacityWeightedMap`
unfoldable pub capacity_weighted_map : List ZfsNode → Pattern → Dict ℤ
unfolding capacity_loop
capacity_weighted_map nodes match = capacity_loop match [] nodes

-- one round of the loop in `spaceWeightedMap`
unfoldable pub space_step : Pattern → Dict ℤ → ZfsNode → Dict ℤ
unfolding k8s_node_name
space_step match nmap node =
    let (pool, free) = max_free_pool node.pools match in
    if is_empty pool then nmap else insert (k8s_node_name node) (sub64 max_int64 free) nmap

unfoldable pub space_loop : Pattern → Dict ℤ → List ZfsNode → Dict ℤ
unfolding space_step
space_loop match nmap [] = nmap
space_loop match nmap (node ∷ nodes) = space_loop match (space_step match nmap node) nodes

-- `spaceWeightedMap`
unfoldable pub space_weighted_map : List ZfsNode → Pattern → Dict ℤ
unfolding space_loop
space_weighted_map nodes match = space_loop match [] nodes

-- the first loop of `volumeWeightedMap`: node id to node name
unfoldable pub node_names : Dict Str → List ZfsNode → Dict Str
node_names m [] = m
node_names m (node ∷ nodes) = node_names (insert node.name (k8s_node_name node) m) nodes

-- the node name for a node id, which stands in for itself where no node has it
unfoldable pub node_of : Dict Str → Str → Str
node_of names id = elim (lookup id names) [ none ↦ id | some name ↦ name ]

-- the second loop of `volumeWeightedMap`
unfoldable pub volume_loop : Pattern → Dict Str → Dict ℤ → List ZfsVolume → Dict ℤ
unfolding node_of pool_root
volume_loop match names nmap [] = nmap
volume_loop match names nmap (zv ∷ zvs) =
    volume_loop match names
      (if not (match (pool_root zv.spec.pool_name))
        then nmap
        else add_to (node_of names zv.spec.owner_node_id) (pos 1) nmap)
      zvs

-- `volumeWeightedMap`
unfoldable pub volume_weighted_map : List ZfsVolume → List ZfsNode → Pattern → Dict ℤ
unfolding volume_loop node_names
volume_weighted_map zvs nodes match = volume_loop match (node_names [] nodes) [] zvs

-- `poolWeightMap`
unfoldable pub pool_weight_loop : Str → Dict ℤ → List Pool → Dict ℤ
pool_weight_loop schd pmap [] = pmap
pool_weight_loop schd pmap (pool ∷ pools) =
    pool_weight_loop schd
      (insert pool.name
        (if schd == codes "SpaceWeighted" then sub64 max_int64 pool.free else pool.used) pmap)
      pools

unfoldable pub pool_weight_map : Str → List Pool → Dict ℤ
unfolding pool_weight_loop
pool_weight_map schd pools = pool_weight_loop schd [] pools

-- `poolVolumeMap`
unfoldable pub pool_volume_loop : Str → Dict ℤ → List ZfsVolume → Dict ℤ
unfolding pool_root
pool_volume_loop id pmap [] = pmap
pool_volume_loop id pmap (zv ∷ zvs) =
    pool_volume_loop id
      (if zv.spec.owner_node_id == id
        then add_to (pool_root zv.spec.pool_name) (pos 1) pmap
        else pmap)
      zvs

unfoldable pub pool_volume_map : List ZfsVolume → Str → Dict ℤ
unfolding pool_volume_loop
pool_volume_map zvs id = pool_volume_loop id [] zvs
