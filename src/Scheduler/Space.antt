-- ===== src/Scheduler/Space.antt =====
-- The weights of SpaceWeighted.
use zfs_localpv.Prelude.{
  All, Any, Str, ◌==◌, ==_iff, List, [], ◌∷◌, ◌≡◌, ◌≢◌, ◌↔◌, subst, ◌-◌, refl, sym, ◌∙◌, true, ◌&&◌,
  if◌then◌else◌, Dict, lookup, lookup-insert, arith, Option, none, some, inl, inr, ◌<◌, ℕ, not,
  is_empty, Bool,
}
use zfs_localpv.Prelude.Int.{two63, sub64_pos, ℤ, pos, sub64, max_int64, ◌<ℤ◌, ◌≤ℤ◌}
use zfs_localpv.Api.{ZfsNode}
use zfs_localpv.Scheduler.{Pattern, max_free_pool}
use zfs_localpv.Scheduler.Maps.{k8s_node_name, space_step, space_loop, space_weighted_map}
use zfs_localpv.Scheduler.Matching.{IsNamed, max_free_pool-Roomiest}
use zfs_localpv.Scheduler.Roomiest.{Matches}

-- `maxFreePool` picks a pool
abbrev picks : Pattern → ZfsNode → Bool
picks match node = not (is_empty (max_free_pool node.pools match).0)

module _ (match : Pattern) (name : Str) where
  -- the weight that the last node of this name with a matching pool has
  abbrev pub space_of : List ZfsNode → Option ℤ → Option ℤ
  space_of [] old = old
  space_of (n ∷ nodes) old = space_of nodes (
      if k8s_node_name n == name && picks match n
      then some (sub64 max_int64 (max_free_pool n.pools match).1)
      else old)

  lookup-space_step :
      (m : Dict ℤ) (n : ZfsNode)
      → lookup name (space_step match m n) ≡ (
          if k8s_node_name n == name && picks match n
          then some (sub64 max_int64 (max_free_pool n.pools match).1)
          else lookup name m)
  unfolding space_step
  lookup-space_step m n = ground (
    arith,
    lookup-insert (k8s_node_name n) name (sub64 max_int64 (max_free_pool n.pools match).1) m,
  )

  lookup-space_loop :
      (m : Dict ℤ) (nodes : List ZfsNode)
      → lookup name (space_loop match m nodes) ≡ space_of nodes (lookup name m)
  unfolding space_loop
  lookup-space_loop m [] = refl
  lookup-space_loop m (n ∷ nodes) =
      lookup-space_loop (space_step match m n) nodes ∙ rw (lookup-space_step m n)

-- No two nodes carry one Kubernetes node name.
abbrev pub DistinctNames : List ZfsNode → Type 0
DistinctNames [] = Unit
DistinctNames (n ∷ nodes) = All (λ z. k8s_node_name z ≢ k8s_node_name n) nodes × DistinctNames nodes

space_of_other :
    (match : Pattern) (name : Str) (nodes : List ZfsNode) (old : Option ℤ)
    → All (λ z. k8s_node_name z ≢ name) nodes
    → space_of match name nodes old ≡ old
space_of_other match name [] old h = refl
space_of_other match name (n ∷ nodes) old h =
    ground (arith, ==_iff (k8s_node_name n) name, space_of_other match name nodes old h.1)

space_of_self :
    (match : Pattern) (a : ZfsNode) (nodes : List ZfsNode) (old : Option ℤ)
    → DistinctNames nodes
    → Any (λ n. n ≡ a) nodes
    → picks match a ≡ true
    → space_of match (k8s_node_name a) nodes old
      ≡ some (sub64 max_int64 (max_free_pool a.pools match).1)
space_of_self match a [] old d k m = elim k [ ]
space_of_self match a (n ∷ nodes) old d (inl e) m =
    subst
      (λ b.
        space_of match (k8s_node_name a) (b ∷ nodes) old
        ≡ some (sub64 max_int64 (max_free_pool a.pools match).1))
      (sym e)
      (rw ((==_iff (k8s_node_name a) (k8s_node_name a)).1 refl, m)
        (space_of_other match (k8s_node_name a) nodes _
          (subst (λ b. All (λ z. k8s_node_name z ≢ k8s_node_name b) nodes) e d.0)))
space_of_self match a (n ∷ nodes) old d (inr k) m = space_of_self match a nodes _ d.1 k m

-- A pool of the node matches and has so many bytes free, and no matching pool has more.
abbrev pub HasRoomiest : Pattern → ZfsNode → ℕ → Type 0
HasRoomiest match node free =
    IsNamed node
    × Any (λ p. Matches match p × (p.free ≡ pos free)) node.pools
    × All (λ p. Matches match p → p.free ≤ℤ pos free) node.pools

HasRoomiest-picks :
    (match : Pattern) (node : ZfsNode) (free : ℕ)
    → HasRoomiest match node free
    → (picks match node ≡ true) × ((max_free_pool node.pools match).1 ≡ pos free)
HasRoomiest-picks match node free (named, there, top) =
    max_free_pool-Roomiest match node named (pos free) there top

-- SpaceWeighted: among nodes with distinct Kubernetes names, if the roomiest matching pools of two
-- nodes have `fa` and `fb` bytes free, both int64 values, then both nodes have a weight, and the first
-- weighs less exactly where it has more free. The pools of the two nodes have names.
pub space_weighted_map-order :
    (match : Pattern) (nodes : List ZfsNode) (a b : ZfsNode) (fa fb : ℕ)
    → DistinctNames nodes
    → Any (λ n. n ≡ a) nodes
    → Any (λ n. n ≡ b) nodes
    → HasRoomiest match a fa
    → HasRoomiest match b fb
    → fa < two63
    → fb < two63
    → let m = space_weighted_map nodes match in
      (wa : ℤ) × (wb : ℤ) × (lookup (k8s_node_name a) m ≡ some wa)
      × (lookup (k8s_node_name b) m ≡ some wb)
      × ((wa <ℤ wb) ↔ (fb < fa))
unfolding space_weighted_map lookup
space_weighted_map-order match nodes a b fa fb d ia ib ra rb la lb =
    let (ma, ea) = HasRoomiest-picks match a fa ra in
    let (mb, eb) = HasRoomiest-picks match b fb rb in
    (
      pos (9223372036854775807 - fa),
      pos (9223372036854775807 - fb),
      lookup-space_loop match (k8s_node_name a) [] nodes
          ∙ space_of_self match a nodes none d ia ma
          ∙ rw (ea, sub64_pos 9223372036854775807 fa (omega arith) (omega arith)),
      lookup-space_loop match (k8s_node_name b) [] nodes
          ∙ space_of_self match b nodes none d ib mb
          ∙ rw (eb, sub64_pos 9223372036854775807 fb (omega arith) (omega arith)),
      (λ h. omega arith, λ h. omega arith),
    )
