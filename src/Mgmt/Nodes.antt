-- ===== src/Mgmt/Nodes.antt =====
-- pkg/mgmt/zfsnode/zfsnode.go: the node controller reports the pools of its node in a ZFSNode
-- object. `ListZFSPool` of pkg/zfs/zfs_util.go lists them. The lister's cache and the API server's
-- `Create` and `Update` are parameters, and so is the comparison of Kubernetes, `deep_equal`.
pub mod Reported
use zfs_localpv.Prelude.{
  Str, codes, ◌==◌, List, [], ◌∷◌, Bool, true, false, ◌||◌, not, if◌then◌else◌, is_empty, Option,
  none, some,
}
use zfs_localpv.Api.{
  Pool, OwnerReference, ZfsNode, Result, ok, err, Error, status, object_not_found, plain, panicked,
  still_waiting,
}
use zfs_localpv.Zfs.Host.{Ran, ◌>>◌, Exec, zfs}
use zfs_localpv.Zfs.Pools.{decode_list_output}

-- `reflect.DeepEqual` of two pointers to Booleans
abbrev pub same_controller : Option Bool → Option Bool → Bool
same_controller none none = true
same_controller none (some b) = false
same_controller (some a) none = false
same_controller (some true) (some b) = b
same_controller (some false) (some b) = not b

-- the reference of the list that has the same uid gets the right controller
unfoldable pub is_owner_refs_update_required :
    OwnerReference → List OwnerReference → List OwnerReference × Bool
is_owner_refs_update_required required [] = (required ∷ [], true)
is_owner_refs_update_required required (ref ∷ refs) =
    let (rest, updated) = is_owner_refs_update_required required refs in
    if not (ref.uid == required.uid)
    then (ref ∷ rest, updated)
    else if not (same_controller ref.controller required.controller)
    then (record ref { controller = required.controller } ∷ refs, true)
    else (ref ∷ refs, false)

abbrev pub list_args : List Str
list_args =
    codes "list"
    ∷ codes "-d"
    ∷ codes "1"
    ∷ codes "-s"
    ∷ codes "name"
    ∷ codes "-o"
    ∷ codes "name,guid,available,used"
    ∷ codes "-H"
    ∷ codes "-p"
    ∷ []

-- the object that the builder of pkg/builder/nodebuilder makes
abbrev pub new_node : Str → List Pool → OwnerReference → Result ZfsNode
new_node name pools owner =
    if is_empty name
    then err plain
    else ok (record { name = name; owner_references = owner ∷ []; pools = pools })

abbrev pub or_plain : {S A : Type 0} → Ran S A → Ran S A
or_plain (ok a, s) = (ok a, s)
or_plain (err e, s) = (err plain, s)

-- what the lister answers, where a missing object is none
abbrev pub cached_node : Result ZfsNode → Result (Option ZfsNode)
cached_node (ok node) = ok (some node)
cached_node (err object_not_found) = ok none
cached_node (err (status c)) = err (status c)
cached_node (err plain) = err plain
cached_node (err panicked) = err panicked
cached_node (err still_waiting) = err still_waiting

module _ {S : Type 0} (exec : Exec S) (deep_equal : List Pool → List Pool → Bool)
    (create update : ZfsNode → S → Ran S (Unit {0})) (owner : OwnerReference) where
  -- `ListZFSPool`
  unfoldable pub list_zfs_pool : S → Ran S (List Pool)
  list_zfs_pool s = exec zfs list_args s >> λ output t. (decode_list_output output, t)

  abbrev pub update_if : Bool → ZfsNode → S → Ran S (Unit {0})
  update_if true node s = or_plain (update node s)
  update_if false node s = (ok tt, s)

  -- `syncNode`, where the object is there
  abbrev pub bring_up_to_date : ZfsNode → List Pool → S → Ran S (Unit {0})
  bring_up_to_date node pools s =
      let (refs, refs_changed) = is_owner_refs_update_required owner node.owner_references in
      let pools_changed = not (deep_equal node.pools pools) in
      update_if (refs_changed || pools_changed)
        (record node {
          owner_references = if refs_changed then refs else node.owner_references;
          pools = if pools_changed then pools else node.pools;
        })
        s

  abbrev pub create_or_update : Str → Option ZfsNode → List Pool → S → Ran S (Unit {0})
  create_or_update name none pools s =
      (new_node name pools owner, s) >> λ node t. or_plain (create node t)
  create_or_update name (some node) pools s = bring_up_to_date node pools s

  -- `syncNode`
  unfoldable pub sync_node : Str → Result ZfsNode → S → Ran S (Unit {0})
  unfolding list_zfs_pool is_owner_refs_update_required
  sync_node name cached s = (cached_node cached, s) >> λ node t.
      list_zfs_pool t >> λ pools u. create_or_update name node pools u
