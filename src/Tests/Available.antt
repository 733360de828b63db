-- ===== src/Tests/Available.antt =====
-- `GetCapacity` on two nodes with pools.
use zfs_localpv.Prelude.{
  codes, ◌==◌, ==→≡, List, [], ◌∷◌, ◌≡◌, ◌≢◌, refl, Any, ◌⊎◌, Option, none, some, All, true, false,
  if◌then◌else◌, arith,
}
use zfs_localpv.Prelude.Int.{ℤ, pos}
use zfs_localpv.Api.{ZfsNode, Result, ok}
use zfs_localpv.Scheduler.{Pattern}
use zfs_localpv.Scheduler.Params.{Regexps, parse_pool_params}
use zfs_localpv.Controller.Snapshots.{Helpers}
use zfs_localpv.Controller.Available.{Caches, filter_nodes_by_topology, get_capacity_call}
use zfs_localpv.Controller.Available.Largest.{
  IsBound, looked_up, Attains, get_capacity_call-IsLargest,
}
use zfs_localpv.Tests.Cluster.{server}

abbrev any_pool : Pattern
any_pool name = true

abbrev small : ZfsNode
small = record {
  name = codes "n1";
  owner_references = [];
  pools = record { name = codes "tank"; uuid = []; free = pos 700; used = pos 0 } ∷ [];
}

abbrev large : ZfsNode
large = record {
  name = codes "n2";
  owner_references = [];
  pools =
      record { name = codes "p"; uuid = []; free = pos 10; used = pos 0 }
      ∷ record { name = codes "q"; uuid = []; free = pos 900; used = pos 0 }
      ∷ [];
}

abbrev caches : Caches
caches = record {
  nodes =
      record { name = codes "n1"; labels = [] } ∷ record { name = codes "n2"; labels = [] } ∷ [];
  by_label = none;
  indexed_label = [];
  selects = λ segments labels. true;
  zfs_node = λ name.
      ok (
        if name == codes "n1" then some small else if name == codes "n2" then some large else none);
}

-- the node agents have not labelled their nodes, so the names of the nodes are looked up
abbrev found : List (Result (Option ZfsNode))
found =
    looked_up server caches any_pool (codes "n1" ∷ codes "n2" ∷ [])
      (record { volumes = []; snapshots = [] })

-- every expression matches every pool
abbrev regexps : Regexps
regexps = record { compile = λ s. some any_pool; quote_meta = λ s. s }

abbrev helpers : Helpers
helpers = record {
  insensitive_parameter = λ parameters key. if key == codes "poolname" then codes "p" else [];
  insensitive_map = λ parameters. parameters;
}

get_capacity_call-IsLargest_example :
    (available : ℤ) × ((get_capacity_call server caches regexps helpers [] []
        (record { volumes = []; snapshots = [] })).0
      ≡ ok available)
    × All (IsBound any_pool available) found
    × ((available ≡ pos 0) ⊎ Any (Attains any_pool available) found)
unfolding ◌==◌ zfs_localpv.Controller.Choice.get_node_id zfs_localpv.Prelude.lookup
    filter_nodes_by_topology parse_pool_params
get_capacity_call-IsLargest_example =
    get_capacity_call-IsLargest server caches any_pool regexps helpers [] []
      (codes "n1" ∷ codes "n2" ∷ []) (record { volumes = []; snapshots = [] }) refl refl
      ((λ h. cc, tt), ((λ h. cc, (λ h. cc, tt)), tt))
