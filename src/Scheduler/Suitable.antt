-- ===== src/Scheduler/Suitable.antt =====
-- Which nodes pass the filter of a reserving volume.
use zfs_localpv.Prelude.{
  Str, ◌==◌, List, [], ◌∷◌, ◌++◌, ◌≡◌, refl, ap, All, All-map, ◌∙◌, Bool, true, false, ◌&&◌, ◌||◌,
  not, is_empty, Dict, get_or, get_or-insert, arith, any, filter, append_assoc, append-nil,
  Bool-cases, inl, inr,
}
use zfs_localpv.Prelude.Int.{ℤ, ltb_ℤ}
use zfs_localpv.Api.{ZfsNode}
use zfs_localpv.Scheduler.{Pattern, max_free_pool}
use zfs_localpv.Scheduler.Matching.{
  IsNamed, has_match, has_room, max_free_pool-has_match, max_free_pool-has_room,
}
use zfs_localpv.Scheduler.Maps.{
  k8s_node_name, suitable_step, suitable_loop, suitable_nodes, filter_keep_loop, filter_keep,
}

-- `maxFreePool` picks a pool, and one with more than `size` bytes free
abbrev picks : Pattern → ZfsNode → Bool
picks match node = not (is_empty (max_free_pool node.pools match).0)

abbrev picks_room : Pattern → ℤ → ZfsNode → Bool
picks_room match size node = picks match node && ltb_ℤ size (max_free_pool node.pools match).1

module _ (match : Pattern) (size : ℤ) where
  suitable_step-get_or :
      (st : Dict Bool × Bool) (node : ZfsNode) (name : Str)
      → get_or name (suitable_step match size st node).0 false
        ≡ (k8s_node_name node == name && picks_room match size node) || get_or name st.0 false
  unfolding suitable_step
  suitable_step-get_or (m, b) node name =
      ground (arith, get_or-insert (k8s_node_name node) name true m false)

  suitable_step-matched :
      (st : Dict Bool × Bool) (node : ZfsNode)
      → (suitable_step match size st node).1 ≡ picks match node || st.1
  unfolding suitable_step
  suitable_step-matched (m, b) node = ground arith

  suitable_loop-get_or :
      (st : Dict Bool × Bool) (nodes : List ZfsNode) (name : Str)
      → get_or name (suitable_loop match size st nodes).0 false
        ≡ any (λ node. k8s_node_name node == name && picks_room match size node) nodes
          || get_or name st.0 false
  unfolding suitable_loop
  suitable_loop-get_or st [] name = refl
  suitable_loop-get_or st (node ∷ nodes) name = ground (
    arith,
    suitable_loop-get_or (suitable_step match size st node) nodes name,
    suitable_step-get_or st node name,
  )

  suitable_loop-matched :
      (st : Dict Bool × Bool) (nodes : List ZfsNode)
      → (suitable_loop match size st nodes).1 ≡ any (picks match) nodes || st.1
  unfolding suitable_loop
  suitable_loop-matched st [] = refl
  suitable_loop-matched st (node ∷ nodes) = ground (
    arith,
    suitable_loop-matched (suitable_step match size st node) nodes,
    suitable_step-matched st node,
  )

filter_keep_loop-filter :
    (keep : Dict Bool) (out nodes : List Str)
    → filter_keep_loop keep out nodes ≡ out ++ filter (λ n. get_or n keep false) nodes
unfolding filter_keep_loop
filter_keep_loop-filter keep out [] = rw append-nil
filter_keep_loop-filter keep out (n ∷ nodes) = elim (Bool-cases (get_or n keep false)) [
  | inl h ↦ rw h (filter_keep_loop-filter keep (out ++ n ∷ []) nodes ∙ rw append_assoc)
  | inr h ↦ rw h (filter_keep_loop-filter keep out nodes)
]

filter-congr :
    {A : Type 0} (p q : A → Bool) (xs : List A) → ((x : A) → p x ≡ q x) → filter p xs ≡ filter q xs
filter-congr p q [] h = refl
filter-congr p q (x ∷ xs) h = rw (h x, filter-congr p q xs h)

or_false : (b : Bool) → (b || false) ≡ b
or_false true = refl
or_false false = refl

any-congr :
    {A : Type 0} (p q : A → Bool) (xs : List A) → All (λ x. p x ≡ q x) xs → any p xs ≡ any q xs
any-congr p q [] h = refl
any-congr p q (x ∷ xs) (first, rest) = rw (first, any-congr p q xs rest) refl

-- `suitableNodes` and `filterKeep` together keep, in the scheduler's order, the nodes that are the
-- Kubernetes node of some ZFSNode with a matching pool that has more than `size` bytes free, and no
-- others; and `suitableNodes` reports a match exactly where a pool of some node matches. Every pool
-- has a name.
pub filter_keep-suitable_nodes :
    (zfs_nodes : List ZfsNode) (match : Pattern) (size : ℤ) (nodes : List Str)
    → All IsNamed zfs_nodes
    → let (suitable, matched) = suitable_nodes zfs_nodes match size in
      (filter_keep nodes suitable
        ≡ filter (λ n. any (λ z. k8s_node_name z == n && has_room match size z) zfs_nodes) nodes)
      × (matched ≡ any (has_match match) zfs_nodes)
unfolding suitable_nodes filter_keep get_or
filter_keep-suitable_nodes zfs_nodes match size nodes named = (
  filter_keep_loop-filter _ [] nodes
      ∙ filter-congr _ _ nodes (λ n.
        suitable_loop-get_or match size ([], false) zfs_nodes n
        ∙ or_false _
        ∙ any-congr _ _ zfs_nodes (
            All-map zfs_nodes
              (λ z named_z.
                ap (λ room. k8s_node_name z == n && room)
                  (max_free_pool-has_room match z named_z size))
              named)),
  suitable_loop-matched match size ([], false) zfs_nodes
      ∙ or_false _
      ∙ any-congr _ _ zfs_nodes
          (All-map zfs_nodes (λ z named_z. max_free_pool-has_match match z named_z) named),
)
