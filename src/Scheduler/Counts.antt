-- ===== src/Scheduler/Counts.antt =====
-- The counts of volumes that VolumeWeighted weighs nodes and pools by.
use zfs_localpv.Prelude.{
  Str, ◌==◌, List, [], ◌∷◌, ◌≡◌, refl, ◌∙◌, ap, Bool, ◌&&◌, if◌then◌else◌, Dict, get_or, lookup,
  lookup-insert, insert, arith, Option, none, some, count, length, ◌+◌, ◌<◌, ◌≤◌, ℕ,
}
use zfs_localpv.Prelude.Int.{ℤ, pos, add64_pos, two63}
use zfs_localpv.Api.{ZfsNode, ZfsVolume}
use zfs_localpv.Scheduler.{Pattern}
use zfs_localpv.Scheduler.Maps.{
  k8s_node_name, add_to, pool_root, node_names, node_of, volume_loop, volume_weighted_map,
  pool_volume_loop, pool_volume_map,
}
use zfs_localpv.Scheduler.Used.{get_or-add_to}

-- the Kubernetes name of the last ZFSNode with this node id
abbrev pub name_for : Str → List ZfsNode → Option Str → Option Str
name_for id [] old = old
name_for id (n ∷ nodes) old =
    name_for id nodes (if n.name == id then some (k8s_node_name n) else old)

lookup-node_names :
    (id : Str) (m : Dict Str) (nodes : List ZfsNode)
    → lookup id (node_names m nodes) ≡ name_for id nodes (lookup id m)
unfolding node_names
lookup-node_names id m [] = refl
lookup-node_names id m (n ∷ nodes) =
    lookup-node_names id (insert n.name (k8s_node_name n) m) nodes
    ∙ rw (lookup-insert n.name id (k8s_node_name n) m)

-- the name of the node that a volume is counted for
unfoldable pub volume_node : List ZfsNode → ZfsVolume → Str
volume_node nodes zv = elim (name_for zv.spec.owner_node_id nodes none) [
  | none ↦ zv.spec.owner_node_id
  | some name ↦ name
]

node_of-volume_node :
    (nodes : List ZfsNode) (zv : ZfsVolume)
    → node_of (node_names [] nodes) zv.spec.owner_node_id ≡ volume_node nodes zv
unfolding node_of volume_node lookup
node_of-volume_node nodes zv = ground (arith, lookup-node_names zv.spec.owner_node_id [] nodes)

count-le-length : {A : Type 0} (p : A → Bool) (xs : List A) → count p xs ≤ length xs
count-le-length p [] = omega arith
count-le-length p (x ∷ xs) = ground (arith, count-le-length p xs)

module _ (match : Pattern) (names : Dict Str) (name : Str) where
  abbrev counted : ZfsVolume → Bool
  counted zv = match (pool_root zv.spec.pool_name) && node_of names zv.spec.owner_node_id == name

  get_or-volume_loop :
      (a : ℕ) (m : Dict ℤ) (zvs : List ZfsVolume)
      → get_or name m (pos 0) ≡ pos a
      → a + length zvs < two63
      → get_or name (volume_loop match names m zvs) (pos 0) ≡ pos (a + count counted zvs)
  unfolding volume_loop
  get_or-volume_loop a m [] e h = e ∙ ap pos (omega arith)
  get_or-volume_loop a m (zv ∷ zvs) e h =
      let node = node_of names zv.spec.owner_node_id in
      ground (
        arith,
        get_or-volume_loop a m zvs e,
        get_or-volume_loop a (add_to node (pos 1) m) zvs,
        get_or-volume_loop (a + 1) (add_to node (pos 1) m) zvs,
        get_or-add_to node name (pos 1) m,
        add64_pos a 1,
      )

count-congr :
    {A : Type 0} (p q : A → Bool) (xs : List A) → ((x : A) → p x ≡ q x) → count p xs ≡ count q xs
count-congr p q [] h = refl
count-congr p q (x ∷ xs) h = rw (h x, count-congr p q xs h)

zero_plus : (n : ℕ) → 0 + n ≡ n
zero_plus n = omega arith

-- The VolumeWeighted weight of a node is the number of volumes whose pool root matches and whose
-- node it is: the Kubernetes name of the last ZFSNode with the volume's node id, or the node id
-- itself where there is none. (Fewer than 2^63 volumes.)
pub volume_weighted_map-count :
    (match : Pattern) (zvs : List ZfsVolume) (nodes : List ZfsNode) (name : Str)
    → length zvs < two63
    → get_or name (volume_weighted_map zvs nodes match) (pos 0)
      ≡ pos (count (λ zv. match (pool_root zv.spec.pool_name) && volume_node nodes zv == name) zvs)
unfolding volume_weighted_map get_or lookup
volume_weighted_map-count match zvs nodes name h =
    get_or-volume_loop match (node_names [] nodes) name 0 [] zvs refl (omega arith)
    ∙ ap pos (zero_plus _)
    ∙ ap pos (count-congr _ _ zvs (λ zv. rw (node_of-volume_node nodes zv)))

module _ (id root : Str) where
  get_or-pool_volume_loop :
      (a : ℕ) (m : Dict ℤ) (zvs : List ZfsVolume)
      → get_or root m (pos 0) ≡ pos a
      → a + length zvs < two63
      → get_or root (pool_volume_loop id m zvs) (pos 0)
        ≡ pos (
            a
            + count (λ zv. zv.spec.owner_node_id == id && pool_root zv.spec.pool_name == root) zvs)
  unfolding pool_volume_loop
  get_or-pool_volume_loop a m [] e h = e ∙ ap pos (omega arith)
  get_or-pool_volume_loop a m (zv ∷ zvs) e h =
      let k = pool_root zv.spec.pool_name in
      ground (
        arith,
        get_or-pool_volume_loop a m zvs e,
        get_or-pool_volume_loop a (add_to k (pos 1) m) zvs,
        get_or-pool_volume_loop (a + 1) (add_to k (pos 1) m) zvs,
        get_or-add_to k root (pos 1) m,
        add64_pos a 1,
      )

  -- The weight of a pool under VolumeWeighted is the number of the node's volumes whose pool root
  -- it is. (Fewer than 2^63 volumes.)
  pub pool_volume_map-count :
      (zvs : List ZfsVolume)
      → length zvs < two63
      → get_or root (pool_volume_map zvs id) (pos 0)
        ≡ pos (count (λ zv. zv.spec.owner_node_id == id && pool_root zv.spec.pool_name == root) zvs)
  unfolding pool_volume_map get_or lookup
  pool_volume_map-count zvs h =
      get_or-pool_volume_loop 0 [] zvs refl (omega arith) ∙ ap pos (omega arith)
