-- ===== src/Scheduler/Roomiest.antt =====
-- What `maxFreePool` returns.
use zfs_localpv.Prelude.{
  List, [], ◌∷◌, ◌≡◌, ◌≢◌, refl, true, inl, arith, All, Any, is_empty_iff, Str,
}
use zfs_localpv.Prelude.Int.{ℤ, pos, ◌≤ℤ◌, ◌<ℤ◌}
use zfs_localpv.Api.{Pool}
use zfs_localpv.Scheduler.{Pattern, max_free_step, max_free_loop, max_free_pool}
use zfs_localpv.Scheduler.Scan.{
  Round, Outcome, Round-Outcome, FirstBest, Outcome-FirstBest, FirstBest-All, FirstBest-Any,
}

abbrev pub Roomier : ℤ → ℤ → Type 0
Roomier a b = b <ℤ a

abbrev pub AsRoomy : ℤ → ℤ → Type 0
AsRoomy a b = b ≤ℤ a

module _ (match : Pattern) where
  abbrev pub Matches : Pool → Type 0
  Matches p = match p.name ≡ true

  max_free_step-Round :
      (st : Str × ℤ) (p : Pool)
      → Round Matches (λ q. q.free) Roomier AsRoomy st p (max_free_step match st p)
  unfolding max_free_step
  max_free_step-Round (s, m) p = ground (arith, is_empty_iff s)

  pub max_free_loop-Outcome :
      (st : Str × ℤ) (pools : List Pool)
      → All (λ p. p.name ≢ []) pools
      → Outcome Matches (λ q. q.free) Roomier AsRoomy st pools (max_free_loop match st pools)
  unfolding max_free_loop
  max_free_loop-Outcome st [] named = inl (record { same_name = refl; same_key = refl; fair = tt })
  max_free_loop-Outcome st (p ∷ pools) named =
      Round-Outcome Matches (λ q. q.free) Roomier AsRoomy (λ a b c h k. omega arith)
        (λ a b c h k. omega arith) st p (max_free_step match st p) pools _ named.0
        (max_free_step-Round st p) (max_free_loop-Outcome (max_free_step match st p) pools named.1)

  -- `maxFreePool`, over pools that all have a name, returns name and free capacity of the first
  -- among the matching pools with the most free capacity, and the empty name with 0 exactly where
  -- no pool matches.
  pub max_free_pool-FirstBest :
      (pools : List Pool)
      → All (λ p. p.name ≢ []) pools
      → FirstBest Matches (λ q. q.free) Roomier AsRoomy (pos 0) pools (max_free_pool pools match)
  unfolding max_free_pool
  max_free_pool-FirstBest pools named =
      Outcome-FirstBest Matches (λ q. q.free) Roomier AsRoomy (pos 0) pools _
        (max_free_loop-Outcome ([], pos 0) pools named)

  module _ (pools : List Pool) (named : All (λ p. p.name ≢ []) pools) where
    pub max_free_pool-Any :
        (max_free_pool pools match).0 ≢ []
        → Any (λ p. Matches p × (max_free_pool pools match ≡ (p.name, p.free))) pools
    max_free_pool-Any =
        FirstBest-Any Matches (λ q. q.free) Roomier AsRoomy (pos 0) pools _
          (max_free_pool-FirstBest pools named)

    pub max_free_pool-All :
        All
          (λ p.
            Matches p
            → ((max_free_pool pools match).0 ≢ []) × (p.free ≤ℤ (max_free_pool pools match).1))
          pools
    max_free_pool-All =
        FirstBest-All Matches (λ q. q.free) Roomier AsRoomy (pos 0) pools _ (λ a b k. omega arith)
          (λ a. omega arith) named (max_free_pool-FirstBest pools named)
