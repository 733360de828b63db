-- ===== src/Controller/Available.antt =====
-- `GetCapacity` and `filterNodesByTopology`. The informers' caches are parameters, and so is the
-- selector of Kubernetes that compares labels.
pub mod Largest
use zfs_localpv.Prelude.{
  Str, codes, List, [], ◌∷◌, Bool, true, false, if◌then◌else◌, Dict, lookup, Option, none, some,
  map, filter,
}
use zfs_localpv.Prelude.Int.{ℤ, pos, ltb_ℤ}
use zfs_localpv.Api.{ZfsNode, Result, ok, err, status, internal}
use zfs_localpv.Zfs.Host.{Ran, ◌>>◌}
use zfs_localpv.Scheduler.{Pattern, max_free_pool}
use zfs_localpv.Scheduler.Params.{Regexps, parse_pool_params}
use zfs_localpv.Controller.Server.{Cluster, or_status}
use zfs_localpv.Controller.Snapshots.{Helpers}
use zfs_localpv.Controller.Choice.{get_node_id}

-- the metadata of a Kubernetes node
pub record NodeMeta : Type 0 where
  pub name : Str
  pub labels : Dict Str

-- `by_label` is the index on `indexed_label`, if the cache has one. A query of it or of the cache of
-- ZFSNode objects, `zfs_node`, may fail.
pub record Caches : Type 0 where
  pub nodes : List NodeMeta
  pub by_label : Option (Str → Result (List NodeMeta))
  pub indexed_label : Str
  pub selects : Dict Str → Dict Str → Bool
  pub zfs_node : Str → Result (Option ZfsNode)

abbrev pub names : List NodeMeta → List Str
names nodes = map (λ node. node.name) nodes

abbrev pub filter_nodes : Caches → Dict Str → List NodeMeta → List Str
filter_nodes caches segments nodes =
    names (filter (λ node. caches.selects segments node.labels) nodes)

abbrev pub filter_result : Caches → Dict Str → Result (List NodeMeta) → Result (List Str)
filter_result caches segments (ok nodes) = ok (filter_nodes caches segments nodes)
filter_result caches segments (err e) = err e

abbrev pub indexed :
    Caches → Dict Str → Option (Str → Result (List NodeMeta)) → Option Str → Result (List Str)
indexed caches segments none value = ok (filter_nodes caches segments caches.nodes)
indexed caches segments (some by_label) none = ok (filter_nodes caches segments caches.nodes)
indexed caches segments (some by_label) (some value) =
    filter_result caches segments (by_label value)

-- `filterNodesByTopology`
unfoldable pub filter_nodes_by_topology : Caches → Dict Str → Result (List Str)
filter_nodes_by_topology caches [] = ok (names caches.nodes)
filter_nodes_by_topology caches (segment ∷ segments) =
    indexed caches (segment ∷ segments) caches.by_label
      (lookup caches.indexed_label (segment ∷ segments))

-- one round of the loop, with the ZFSNode object that the cache gives
unfoldable pub capacity_step : Pattern → ℤ → Result (Option ZfsNode) → ℤ
capacity_step pattern available (err e) = available
capacity_step pattern available (ok none) = available
capacity_step pattern available (ok (some node)) =
    let (_, free) = max_free_pool node.pools pattern in
    if ltb_ℤ available free then free else available

module _ {S : Type 0} (api : Cluster S) (caches : Caches) where
  -- the node id, or the name where it is not found
  abbrev pub mapped : Str → Ran S Str → Str
  mapped node_name (ok id, s) = id
  mapped node_name (err e, s) = node_name

  -- the loop over the nodes
  unfoldable pub available_loop : Pattern → ℤ → List Str → S → ℤ × S
  unfolding capacity_step
  available_loop pattern available [] s = (available, s)
  available_loop pattern available (node ∷ nodes) s =
      let id = get_node_id api node s in
      available_loop pattern (capacity_step pattern available (caches.zfs_node (mapped node id)))
        nodes id.1

  abbrev pub answer : Result Pattern → List Str → S → ℤ × S
  answer (err e) nodes s = (pos 0, s)
  answer (ok pattern) nodes s = available_loop pattern (pos 0) nodes s

  abbrev pub answered : Regexps → Helpers → Dict Str → Result (List Str) → S → Ran S ℤ
  answered regexps helpers parameters (err e) s = (err (status internal), s)
  answered regexps helpers parameters (ok nodes) s =
      let (available, t) =
        answer
          (parse_pool_params regexps (helpers.insensitive_parameter parameters (codes "poolname"))
            (helpers.insensitive_parameter parameters (codes "poolpattern")))
          nodes s in
      (ok available, t)

  -- `GetCapacity`
  unfoldable pub get_capacity_call : Regexps → Helpers → Dict Str → Dict Str → S → Ran S ℤ
  unfolding filter_nodes_by_topology available_loop
  get_capacity_call regexps helpers segments parameters s =
      answered regexps helpers parameters (filter_nodes_by_topology caches segments) s
