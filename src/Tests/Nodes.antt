-- ===== src/Tests/Nodes.antt =====
-- The node controller on a list of ZFSNode objects. `zfs list` prints the rows of Tests/Pools.
use zfs_localpv.Prelude.{
  Str, codes, ◌==◌, ==→≡, nat_eq, List, [], ◌∷◌, ◌≡◌, refl, ap, Bool, true, false, ◌&&◌, Option,
  none, some, arith,
}
use zfs_localpv.Prelude.Int.{ℤ, pos, negsuc}
use zfs_localpv.Api.{Pool, OwnerReference, ZfsNode, ok}
use zfs_localpv.Zfs.Host.{Ran, Exec}
use zfs_localpv.Zfs.Pools.Printed.{print_pools}
use zfs_localpv.Mgmt.Nodes.{sync_node}
use zfs_localpv.Mgmt.Nodes.Reported.{NodeStore, IsReported, sync_node-IsReported}
use zfs_localpv.Tests.Named.{find, set, find-set}
use zfs_localpv.Tests.Pools.{tank, full, volume_row, listed}

abbrev same_size : ℤ → ℤ → Bool
same_size (pos m) (pos n) = nat_eq m n
same_size (pos m) (negsuc n) = false
same_size (negsuc m) (pos n) = false
same_size (negsuc m) (negsuc n) = nat_eq m n

abbrev same_pools : List Pool → List Pool → Bool
same_pools [] [] = true
same_pools [] (q ∷ qs) = false
same_pools (p ∷ ps) [] = false
same_pools (p ∷ ps) (q ∷ qs) =
    p.name == q.name
    && (p.uuid == q.uuid
        && (same_size p.free q.free && (same_size p.used q.used && same_pools ps qs)))

same_size-eq : (a b : ℤ) → same_size a b ≡ true → a ≡ b
same_size-eq (pos m) (pos n) h = ground arith
same_size-eq (pos m) (negsuc n) h = cc
same_size-eq (negsuc m) (pos n) h = cc
same_size-eq (negsuc m) (negsuc n) h = ground arith

same_pools-eq : (ps qs : List Pool) → same_pools ps qs ≡ true → ps ≡ qs
same_pools-eq [] [] h = refl
same_pools-eq [] (q ∷ qs) h = cc
same_pools-eq (p ∷ ps) [] h = cc
same_pools-eq (p ∷ ps) (q ∷ qs) h =
    let name = ==→≡ p.name q.name (ground arith) in
    let uuid = ==→≡ p.uuid q.uuid (ground arith) in
    let free = same_size-eq p.free q.free (ground arith) in
    let used = same_size-eq p.used q.used (ground arith) in
    let rest = same_pools-eq ps qs (ground arith) in cc

abbrev exec : Exec (List ZfsNode)
exec command args s = (ok (print_pools (tank ∷ volume_row ∷ full ∷ [])), s)

abbrev write : ZfsNode → List ZfsNode → Ran (List ZfsNode) (Unit {0})
write node s = (ok tt, set (λ n. n.name) node.name (some node) s)

abbrev nodes : List ZfsNode → Str → Option ZfsNode
nodes s name = find (λ n. n.name) name s

write_stored : (node : ZfsNode) (s : List ZfsNode) → nodes (write node s).1 node.name ≡ some node
write_stored node s = (find-set (λ n. n.name) node.name (some node) s (λ x h. ground arith)).1

store : NodeStore exec write write nodes
store = record {
  create_stored = λ node s h. write_stored node s;
  update_stored = λ node s h. write_stored node s;
  exec_nodes = λ command args s name. refl;
}

abbrev daemon : OwnerReference
daemon = record {
  kind = codes "DaemonSet";
  name = codes "zfs";
  uid = codes "7";
  controller = some true;
}

abbrev known : ZfsNode
known = record {
  name = codes "n1";
  owner_references =
      record { kind = codes "DaemonSet"; name = codes "zfs"; uid = codes "7"; controller = none }
      ∷ [];
  pools = tank ∷ [];
}

abbrev after : List ZfsNode
after = (sync_node exec same_pools write write daemon (codes "n1") (ok known) (known ∷ [])).1

sync_node-IsReported_example : IsReported nodes (codes "n1") (tank ∷ full ∷ []) daemon after
unfolding find ◌==◌ sync_node zfs_localpv.Zfs.Pools.decode_list_output
    zfs_localpv.Prelude.Decimal.format_int zfs_localpv.Prelude.Decimal.parse_int
sync_node-IsReported_example =
    sync_node-IsReported store same_pools same_pools-eq daemon (codes "n1") (ok known)
      (tank ∷ volume_row ∷ full ∷ []) (known ∷ []) (refl, refl) listed refl refl
