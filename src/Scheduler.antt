-- ===== src/Scheduler.antt =====
-- pkg/driver/schd_helper.go: which node and which pool a volume goes to. A compiled
-- `*regexp.Regexp` is used through `MatchString` alone, so a pattern is a test on strings.
-- This file has the loops over the pools of one node; the children have the maps over nodes.
pub mod Scan
pub mod Roomiest
pub mod Lightest
pub mod Fit
pub mod Maps
pub mod Matching
pub mod Suitable
pub mod Used
pub mod Space
pub mod Counts
pub mod Params
use zfs_localpv.Prelude.{
  Str, List, [], ◌∷◌, Bool, true, ◌||◌, ◌&&◌, not, is_empty, if◌then◌else◌, Dict, get_or,
}
use zfs_localpv.Prelude.Int.{ℤ, pos, ltb_ℤ, leb_ℤ}
use zfs_localpv.Api.{Pool}

abbrev pub Pattern : Type 0
Pattern = Str → Bool

-- one round of the loop in `maxFreePool`, on the variables `selected` and `maxFree`
unfoldable pub max_free_step : Pattern → Str × ℤ → Pool → Str × ℤ
max_free_step match (selected, max_free) pool =
    if not (match pool.name)
    then (selected, max_free)
    else if is_empty selected || ltb_ℤ max_free pool.free
    then (pool.name, pool.free)
    else (selected, max_free)

unfoldable pub max_free_loop : Pattern → Str × ℤ → List Pool → Str × ℤ
unfolding max_free_step
max_free_loop match st [] = st
max_free_loop match st (pool ∷ pools) = max_free_loop match (max_free_step match st pool) pools

-- `maxFreePool`
unfoldable pub max_free_pool : List Pool → Pattern → Str × ℤ
unfolding max_free_loop
max_free_pool pools match = max_free_loop match ([], pos 0) pools

-- one round of the loop in `poolForNode`, on `selected` and `selWeight`
unfoldable pub pool_for_node_step : Pattern → ℤ → Dict ℤ → Str × ℤ → Pool → Str × ℤ
pool_for_node_step match min_free pmap (selected, sel_weight) pool =
    if not (match pool.name)
    then (selected, sel_weight)
    else if ltb_ℤ (pos 0) min_free && leb_ℤ pool.free min_free
    then (selected, sel_weight)
    else (let weight = get_or pool.name pmap (pos 0) in
        if is_empty selected || ltb_ℤ weight sel_weight
        then (pool.name, weight)
        else (selected, sel_weight))

unfoldable pub pool_for_node_loop : Pattern → ℤ → Dict ℤ → Str × ℤ → List Pool → Str × ℤ
unfolding pool_for_node_step
pool_for_node_loop match min_free pmap st [] = st
pool_for_node_loop match min_free pmap st (pool ∷ pools) =
    pool_for_node_loop match min_free pmap (pool_for_node_step match min_free pmap st pool) pools

-- `poolForNode`
unfoldable pub pool_for_node : List Pool → Pattern → ℤ → Dict ℤ → Str
unfolding pool_for_node_loop
pool_for_node pools match min_free pmap =
    (pool_for_node_loop match min_free pmap ([], pos 0) pools).0
