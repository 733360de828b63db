-- ===== src/Scheduler/Used.antt =====
-- The weights of CapacityWeighted.
use zfs_localpv.Prelude.{
  All, Str, ◌==◌, ==_iff, List, [], ◌∷◌, ◌≡◌, refl, ◌∙◌, if◌then◌else◌, Dict, get_or, get_or-insert,
  arith, Bool-cases, inl, inr, ap, ◌+◌, ◌<◌, ℕ,
}
use zfs_localpv.Prelude.Int.{pos_part, neg_part, two63, eq_of_parts, add64_pos, ℤ, pos, add64}
use zfs_localpv.Api.{Pool, ZfsNode}
use zfs_localpv.Scheduler.{Pattern}
use zfs_localpv.Scheduler.Maps.{
  k8s_node_name, add_to, capacity_pools, capacity_loop, capacity_weighted_map,
}

pub get_or-add_to :
    (k j : Str) (w : ℤ) (m : Dict ℤ)
    → get_or j (add_to k w m) (pos 0)
      ≡ (if k == j then add64 (get_or j m (pos 0)) w else get_or j m (pos 0))
get_or-add_to k j w m =
    ground (arith, get_or-insert k j (add64 (get_or k m (pos 0)) w) m (pos 0), ==_iff k j)

module _ (match : Pattern) (name : Str) where
  -- `acc` and the used bytes of the pools that match, as int64
  abbrev pub plus_used : ℤ → List Pool → ℤ
  plus_used acc [] = acc
  plus_used acc (p ∷ pools) = plus_used (if match p.name then add64 acc p.used else acc) pools

  -- the same over the nodes that carry this Kubernetes node name
  abbrev pub plus_used_on : ℤ → List ZfsNode → ℤ
  plus_used_on acc [] = acc
  plus_used_on acc (n ∷ nodes) =
      plus_used_on (if k8s_node_name n == name then plus_used acc n.pools else acc) nodes

  get_or-capacity_pools :
      (node : Str) (m : Dict ℤ) (pools : List Pool)
      → get_or name (capacity_pools match node m pools) (pos 0)
        ≡ (if node == name then plus_used (get_or name m (pos 0)) pools else get_or name m (pos 0))
  unfolding capacity_pools
  get_or-capacity_pools node m [] = ground arith
  get_or-capacity_pools node m (p ∷ pools) = elim (Bool-cases (match p.name)) [
    | inl h ↦ rw h (
        get_or-capacity_pools node (add_to node p.used m) pools
        ∙ ground (arith, get_or-add_to node name p.used m))
    | inr h ↦ rw h (get_or-capacity_pools node m pools)
  ]

  get_or-capacity_loop :
      (m : Dict ℤ) (nodes : List ZfsNode)
      → get_or name (capacity_loop match m nodes) (pos 0)
        ≡ plus_used_on (get_or name m (pos 0)) nodes
  unfolding capacity_loop
  get_or-capacity_loop m [] = refl
  get_or-capacity_loop m (n ∷ nodes) =
      get_or-capacity_loop (capacity_pools match (k8s_node_name n) m n.pools) nodes
      ∙ rw (get_or-capacity_pools (k8s_node_name n) m n.pools)

  -- the used bytes of the pools that match, as a plain sum
  abbrev pub used_in : List Pool → ℕ
  used_in [] = 0
  used_in (p ∷ pools) = if match p.name then pos_part p.used + used_in pools else used_in pools

  -- the sum over the nodes that carry this Kubernetes node name
  abbrev pub used_on : List ZfsNode → ℕ
  used_on [] = 0
  used_on (n ∷ nodes) =
      if k8s_node_name n == name then used_in n.pools + used_on nodes else used_on nodes

  plus_used_exact :
      (a : ℕ) (pools : List Pool)
      → All (λ p. neg_part p.used ≡ 0) pools
      → a + used_in pools < two63
      → plus_used (pos a) pools ≡ pos (a + used_in pools)
  plus_used_exact a [] nn h = ground arith
  plus_used_exact a (p ∷ pools) nn h = ground (
    arith,
    plus_used_exact (a + pos_part p.used) pools nn.1,
    plus_used_exact a pools nn.1,
    add64_pos a (pos_part p.used),
    eq_of_parts p.used (pos (pos_part p.used)),
  )

  plus_used_on_exact :
      (a : ℕ) (nodes : List ZfsNode)
      → All (λ n. All (λ p. neg_part p.used ≡ 0) n.pools) nodes
      → a + used_on nodes < two63
      → plus_used_on (pos a) nodes ≡ pos (a + used_on nodes)
  plus_used_on_exact a [] nn h = ground arith
  plus_used_on_exact a (n ∷ nodes) nn h = ground (
    arith,
    plus_used_on_exact (a + used_in n.pools) nodes nn.1,
    plus_used_on_exact a nodes nn.1,
    plus_used_exact a n.pools nn.0,
  )

  -- Where no used capacity is negative and the sum fits an int64, the CapacityWeighted weight of
  -- a Kubernetes node is the sum of the used bytes of the matching pools of all its ZFSNodes,
  -- which is 0 for a node that has none.
  pub capacity_weighted_map-used_on :
      (nodes : List ZfsNode)
      → All (λ n. All (λ p. neg_part p.used ≡ 0) n.pools) nodes
      → used_on nodes < two63
      → get_or name (capacity_weighted_map nodes match) (pos 0) ≡ pos (used_on nodes)
  unfolding capacity_weighted_map get_or
  capacity_weighted_map-used_on nodes nn h =
      get_or-capacity_loop [] nodes
      ∙ plus_used_on_exact 0 nodes nn (omega arith)
      ∙ ap pos (omega arith)
