-- ===== src/Controller/Available/Largest.antt =====
-- `GetCapacity` and the free capacities of the pools that it looks at.
use zfs_localpv.Prelude.{
  Dict, codes, Any-middle, subst, Bool-cases, Str, List, [], ◌∷◌, ◌≢◌, if◌then◌else◌, Option, none,
  some, All, All-map, arith, ◌≡◌, refl, ap, sym, ◌∙◌, Any, ◌⊎◌, inl, inr,
}
use zfs_localpv.Prelude.Int.{ℤ, pos, ltb_ℤ, ◌≤ℤ◌, le_ℤ-trans}
use zfs_localpv.Api.{Pool, ZfsNode, Result, ok, err}
use zfs_localpv.Scheduler.{Pattern, max_free_pool}
use zfs_localpv.Scheduler.Roomiest.{Matches, max_free_pool-All, max_free_pool-FirstBest}
use zfs_localpv.Controller.Server.{Cluster}
use zfs_localpv.Controller.Choice.{get_node_id}
use zfs_localpv.Controller.Available.{
  Caches, mapped, capacity_step, available_loop, filter_nodes_by_topology, get_capacity_call,
}
use zfs_localpv.Scheduler.Params.{Regexps, parse_pool_params}
use zfs_localpv.Controller.Snapshots.{Helpers}

-- Every pool of the node has a name.
abbrev pub IsNamed : Result (Option ZfsNode) → Type 0
IsNamed (err e) = Unit
IsNamed (ok none) = Unit
IsNamed (ok (some node)) = All (λ p. p.name ≢ []) node.pools

-- No matching pool of the node has more free bytes.
abbrev pub IsBound : Pattern → ℤ → Result (Option ZfsNode) → Type 0
IsBound pattern most (err e) = Unit
IsBound pattern most (ok none) = Unit
IsBound pattern most (ok (some node)) = All (λ p. Matches pattern p → p.free ≤ℤ most) node.pools

-- A matching pool of the node has this many bytes free.
abbrev pub Attains : Pattern → ℤ → Result (Option ZfsNode) → Type 0
Attains pattern most (err e) = ⊥
Attains pattern most (ok none) = ⊥
Attains pattern most (ok (some node)) = Any (λ p. Matches pattern p × (p.free ≡ most)) node.pools

capacity_step-grows :
    (pattern : Pattern) (available : ℤ) (got : Result (Option ZfsNode))
    → available ≤ℤ capacity_step pattern available got
unfolding capacity_step
capacity_step-grows pattern available (err e) = omega arith
capacity_step-grows pattern available (ok none) = omega arith
capacity_step-grows pattern available (ok (some node)) = ground arith

IsBound-grows :
    (pattern : Pattern) (low high : ℤ) (got : Result (Option ZfsNode))
    → low ≤ℤ high
    → IsBound pattern low got
    → IsBound pattern high got
IsBound-grows pattern low high (err e) le bound = tt
IsBound-grows pattern low high (ok none) le bound = tt
IsBound-grows pattern low high (ok (some node)) le bound =
    All-map node.pools (λ p below matches. le_ℤ-trans p.free low high (below matches) le) bound

larger : (a b : ℤ) → b ≤ℤ (if ltb_ℤ a b then b else a)
larger a b = ground arith

capacity_step-IsBound :
    (pattern : Pattern) (available : ℤ) (got : Result (Option ZfsNode))
    → IsNamed got
    → IsBound pattern (capacity_step pattern available got) got
unfolding capacity_step
capacity_step-IsBound pattern available (err e) named = tt
capacity_step-IsBound pattern available (ok none) named = tt
capacity_step-IsBound pattern available (ok (some node)) named =
    let most = (max_free_pool node.pools pattern).1 in
    IsBound-grows pattern most _ (ok (some node)) (larger available most) (
      All-map node.pools (λ p best matches. (best matches).1)
        (max_free_pool-All pattern node.pools named))

-- `maxFreePool` answers 0 or the free capacity of a matching pool.
max_free_pool-Attains :
    (pattern : Pattern) (pools : List Pool)
    → All (λ p. p.name ≢ []) pools
    → ((max_free_pool pools pattern).1 ≡ pos 0)
      ⊎ Any (λ p. Matches pattern p × (p.free ≡ (max_free_pool pools pattern).1)) pools
max_free_pool-Attains pattern pools named = elim (max_free_pool-FirstBest pattern pools named) [
  | inl none_fits ↦ inl (ap (λ m. m.1) none_fits.1)
  | inr (front, p, back, split, fits, eq, before, after) ↦ inr (
      subst (λ ps. Any (λ q. Matches pattern q × (q.free ≡ (max_free_pool pools pattern).1)) ps)
        (sym split) (Any-middle _ front p back (fits, sym (ap (λ m. m.1) eq))))
]

chosen :
    (available free : ℤ) (P : ℤ → Type 0)
    → pos 0 ≤ℤ available
    → (free ≡ pos 0) ⊎ P free
    → ((if ltb_ℤ available free then free else available) ≡ available)
      ⊎ P (if ltb_ℤ available free then free else available)
chosen available free P low attained = elim (Bool-cases (ltb_ℤ available free)) [
  | inr h ↦ inl (rw h refl)
  | inl h ↦ elim attained [ inl zero ↦ absurd (ground arith) | inr p ↦ inr (rw h p) ]
]

capacity_step-Attains :
    (pattern : Pattern) (available : ℤ) (got : Result (Option ZfsNode))
    → IsNamed got
    → pos 0 ≤ℤ available
    → (capacity_step pattern available got ≡ available)
      ⊎ Attains pattern (capacity_step pattern available got) got
unfolding capacity_step
capacity_step-Attains pattern available (err e) named low = inl refl
capacity_step-Attains pattern available (ok none) named low = inl refl
capacity_step-Attains pattern available (ok (some node)) named low =
    chosen available (max_free_pool node.pools pattern).1
      (λ most. Any (λ p. Matches pattern p × (p.free ≡ most)) node.pools) low
      (max_free_pool-Attains pattern node.pools named)

module _ {S : Type 0} (api : Cluster S) (caches : Caches) (pattern : Pattern) where
  -- what the loop of `GetCapacity` finds in the cache for the nodes
  abbrev pub looked_up : List Str → S → List (Result (Option ZfsNode))
  looked_up [] s = []
  looked_up (node ∷ nodes) s =
      caches.zfs_node (mapped api caches node (get_node_id api node s))
      ∷ looked_up nodes (get_node_id api node s).1

  available_loop-grows :
      (available : ℤ) (nodes : List Str) (s : S)
      → available ≤ℤ (available_loop api caches pattern available nodes s).0
  unfolding available_loop
  available_loop-grows available [] s = omega arith
  available_loop-grows available (node ∷ nodes) s =
      let id = get_node_id api node s in
      let got = caches.zfs_node (mapped api caches node id) in
      le_ℤ-trans available (capacity_step pattern available got) _
        (capacity_step-grows pattern available got)
        (available_loop-grows (capacity_step pattern available got) nodes id.1)

  available_loop-IsBound :
      (available : ℤ) (nodes : List Str) (s : S)
      → All IsNamed (looked_up nodes s)
      → All
          (IsBound pattern (available_loop api caches pattern available nodes s).0)
          (looked_up nodes s)
  unfolding available_loop
  available_loop-IsBound available [] s named = tt
  available_loop-IsBound available (node ∷ nodes) s (first, rest) =
      let id = get_node_id api node s in
      let got = caches.zfs_node (mapped api caches node id) in
      let step = capacity_step pattern available got in
      (
        IsBound-grows pattern step _ got (available_loop-grows step nodes id.1)
            (capacity_step-IsBound pattern available got first),
        available_loop-IsBound step nodes id.1 rest,
      )

  available_loop-Attains :
      (available : ℤ) (nodes : List Str) (s : S)
      → All IsNamed (looked_up nodes s)
      → pos 0 ≤ℤ available
      → let most = (available_loop api caches pattern available nodes s).0 in
        (most ≡ available) ⊎ Any (Attains pattern most) (looked_up nodes s)
  unfolding available_loop
  available_loop-Attains available [] s named low = inl refl
  available_loop-Attains available (node ∷ nodes) s (first, rest) low =
      let id = get_node_id api node s in
      let got = caches.zfs_node (mapped api caches node id) in
      let step = capacity_step pattern available got in
      let most = (available_loop api caches pattern step nodes id.1).0 in
      elim (available_loop-Attains step nodes id.1 rest
        (le_ℤ-trans (pos 0) available step low (capacity_step-grows pattern available got))) [
          | inr there ↦ inr (inr there)
          | inl same ↦ elim (capacity_step-Attains pattern available got first low) [
            | inl kept ↦ inl (same ∙ kept)
            | inr here ↦ inr (inl (subst (λ m. Attains pattern m got) (sym same) here))
          ]
        ]

  -- Where the pool parameters give a pattern and the topology gives nodes, `GetCapacity` answers a
  -- capacity that is not below the free capacity of any matching pool of the ZFSNode objects that the
  -- cache gives for these nodes, and that is the free capacity of one of these pools or 0. Every pool
  -- of these objects has a name.
  pub get_capacity_call-IsLargest :
      (regexps : Regexps) (helpers : Helpers) (segments parameters : Dict Str) (nodes : List Str)
      (s : S)
      → filter_nodes_by_topology caches segments ≡ ok nodes
      → parse_pool_params regexps
          (helpers.insensitive_parameter parameters (codes "poolname"))
          (helpers.insensitive_parameter parameters (codes "poolpattern"))
        ≡ ok pattern
      → All IsNamed (looked_up nodes s)
      → (available : ℤ) × ((get_capacity_call api caches regexps helpers segments parameters s).0
          ≡ ok available)
        × All (IsBound pattern available) (looked_up nodes s)
        × ((available ≡ pos 0) ⊎ Any (Attains pattern available) (looked_up nodes s))
  unfolding get_capacity_call
  get_capacity_call-IsLargest regexps helpers segments parameters nodes s listed parsed named = (
    (available_loop api caches pattern (pos 0) nodes s).0,
    rw (listed, parsed) refl,
    available_loop-IsBound (pos 0) nodes s named,
    available_loop-Attains (pos 0) nodes s named (omega arith),
  )
