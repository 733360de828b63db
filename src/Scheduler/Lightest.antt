-- ===== src/Scheduler/Lightest.antt =====
-- What `poolForNode` returns.
use zfs_localpv.Prelude.{
  Str, List, [], ◌∷◌, ◌≡◌, ◌≢◌, refl, ap, true, inl, arith, All, Any, All-map, Any-map,
  is_empty_iff, Dict, get_or,
}
use zfs_localpv.Prelude.Int.{ℤ, pos, ◌≤ℤ◌, ◌<ℤ◌}
use zfs_localpv.Api.{Pool}
use zfs_localpv.Scheduler.{Pattern, pool_for_node_step, pool_for_node_loop, pool_for_node}
use zfs_localpv.Scheduler.Scan.{
  Round, Outcome, Round-Outcome, FirstBest, Outcome-FirstBest, FirstBest-All, FirstBest-Any,
}

module _ (match : Pattern) (min_free : ℤ) (pmap : Dict ℤ) where
  -- The pool matches, and has more than `minFree` bytes free where `minFree` is positive.
  abbrev pub Qualifies : Pool → Type 0
  Qualifies p = (match p.name ≡ true) × (pos 0 <ℤ min_free → min_free <ℤ p.free)

  abbrev pub weight : Pool → ℤ
  weight p = get_or p.name pmap (pos 0)

  pool_for_node_step-Round :
      (st : Str × ℤ) (p : Pool)
      → Round Qualifies weight ◌<ℤ◌ ◌≤ℤ◌ st p (pool_for_node_step match min_free pmap st p)
  unfolding pool_for_node_step
  pool_for_node_step-Round (s, m) p = ground (arith, is_empty_iff s)

  pool_for_node_loop-Outcome :
      (st : Str × ℤ) (pools : List Pool)
      → All (λ p. p.name ≢ []) pools
      → Outcome Qualifies weight ◌<ℤ◌ ◌≤ℤ◌ st pools
          (pool_for_node_loop match min_free pmap st pools)
  unfolding pool_for_node_loop
  pool_for_node_loop-Outcome st [] named =
      inl (record { same_name = refl; same_key = refl; fair = tt })
  pool_for_node_loop-Outcome st (p ∷ pools) named =
      let mid = pool_for_node_step match min_free pmap st p in
      Round-Outcome Qualifies weight ◌<ℤ◌ ◌≤ℤ◌ (λ a b c h k. omega arith) (λ a b c h k. omega arith)
        st p mid pools _ named.0 (pool_for_node_step-Round st p)
        (pool_for_node_loop-Outcome mid pools named.1)

  -- `poolForNode`, over pools that all have a name: where a pool matches and has more than
  -- `minFree` bytes free (any number where `minFree` is not positive), the result is the name of
  -- the first one of least weight, a pool without a weight counting 0; else the empty name.
  pub pool_for_node-FirstBest :
      (pools : List Pool)
      → All (λ p. p.name ≢ []) pools
      → (w : ℤ) × FirstBest Qualifies weight ◌<ℤ◌ ◌≤ℤ◌
          (pos 0)
          pools
          (pool_for_node pools match min_free pmap, w)
  unfolding pool_for_node
  pool_for_node-FirstBest pools named = (
    (pool_for_node_loop match min_free pmap ([], pos 0) pools).1,
    Outcome-FirstBest Qualifies weight ◌<ℤ◌ ◌≤ℤ◌ (pos 0) pools _
        (pool_for_node_loop-Outcome ([], pos 0) pools named),
  )

  module _ (pools : List Pool) (named : All (λ p. p.name ≢ []) pools) where
    pub pool_for_node-Any :
        pool_for_node pools match min_free pmap ≢ []
        → Any (λ p. Qualifies p × (pool_for_node pools match min_free pmap ≡ p.name)) pools
    pool_for_node-Any n =
        let (w, best) = pool_for_node-FirstBest pools named in
        Any-map pools (λ p (q, e). (q, ap (λ o. o.0) e))
          (FirstBest-Any Qualifies weight ◌<ℤ◌ ◌≤ℤ◌ (pos 0) pools
            (pool_for_node pools match min_free pmap, w) best n)

    pub pool_for_node-All :
        All (λ p. Qualifies p → pool_for_node pools match min_free pmap ≢ []) pools
    pool_for_node-All =
        let (w, best) = pool_for_node-FirstBest pools named in
        All-map pools (λ p f q. (f q).0)
          (FirstBest-All Qualifies weight ◌<ℤ◌ ◌≤ℤ◌ (pos 0) pools
            (pool_for_node pools match min_free pmap, w) (λ a b k. omega arith) (λ a. omega arith)
            named best)
