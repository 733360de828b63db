-- ===== src/Scheduler/Fit.antt =====
-- The node filter of `suitableNodes` beside the pool choice of `poolForNode`.
use zfs_localpv.Prelude.{List, [], ◌≢◌, ◌↔◌, arith, All, All-Any, Dict}
use zfs_localpv.Prelude.Int.{ℤ, pos, ◌<ℤ◌}
use zfs_localpv.Api.{Pool}
use zfs_localpv.Scheduler.{Pattern, max_free_pool, pool_for_node}
use zfs_localpv.Scheduler.Roomiest.{max_free_pool-All, max_free_pool-Any}
use zfs_localpv.Scheduler.Lightest.{pool_for_node-All, pool_for_node-Any}

module _ (match : Pattern) (size : ℤ) (pmap : Dict ℤ) (pools : List Pool) where
  -- For a positive size and pools that all have a name: the roomiest matching pool of a node
  -- exists and has more than `size` bytes free exactly where `poolForNode` finds a pool, whatever
  -- the weights. So a reserving volume that passes the node filter gets a pool on that node.
  pub pool_for_node_iff_roomiest :
      All (λ p. p.name ≢ []) pools
      → pos 0 <ℤ size
      → (((max_free_pool pools match).0 ≢ []) × (size <ℤ (max_free_pool pools match).1))
        ↔ (pool_for_node pools match size pmap ≢ [])
  pool_for_node_iff_roomiest named h = (
    λ fits.
        All-Any pools (pool_for_node-All match size pmap pools named)
          (max_free_pool-Any match pools named fits.0)
          (λ p found r. found (r.0, λ _. rw r.1 at fits.1)),
    λ n.
        All-Any pools (max_free_pool-All match pools named)
          (pool_for_node-Any match size pmap pools named n)
          (λ p top r. ((top r.0.0).0, omega (arith, r.0.1 h, (top r.0.0).1))),
  )
