-- ===== src/Mgmt/Nodes/Reported.antt =====
-- What a reconcile of the ZFSNode object leaves in it.
use zfs_localpv.Prelude.{
  filter, Str, ◌==◌, ==→≡, List, [], ◌∷◌, ◌≡◌, refl, sym, ap, ◌∙◌, subst, Bool, true, false, ◌||◌,
  not, if◌then◌else◌, is_empty, Option, none, some, Any, All, inl, inr, arith,
}
use zfs_localpv.Api.{
  Pool, OwnerReference, ZfsNode, Result, ok, err, status, object_not_found, plain, panicked,
  still_waiting,
}
use zfs_localpv.Zfs.Host.{Ran, ◌>>◌, Exec, zfs, succeeded}
use zfs_localpv.Zfs.Pools.{decode_list_output}
use zfs_localpv.Zfs.Pools.Printed.{is_pool, Listed, print_pools, decode_list_output-print_pools}
use zfs_localpv.Controller.Cases.{if-cases, then-cases}
use zfs_localpv.Mgmt.Nodes.{
  same_controller, is_owner_refs_update_required, list_args, new_node, or_plain, cached_node,
  list_zfs_pool, update_if, bring_up_to_date, create_or_update, sync_node,
}

-- A reference names the owner, with the right controller flag.
abbrev pub IsOwned : OwnerReference → List OwnerReference → Type 0
IsOwned owner refs = Any (λ ref. (ref.uid ≡ owner.uid) × (ref.controller ≡ owner.controller)) refs

same_controller-eq : (a b : Option Bool) → same_controller a b ≡ true → a ≡ b
same_controller-eq none none h = refl
same_controller-eq none (some b) h = cc
same_controller-eq (some a) none h = cc
same_controller-eq (some true) (some true) h = refl
same_controller-eq (some true) (some false) h = cc
same_controller-eq (some false) (some true) h = cc
same_controller-eq (some false) (some false) h = refl

is_owner_refs_update_required-IsOwned :
    (owner : OwnerReference) (refs : List OwnerReference)
    → IsOwned owner (is_owner_refs_update_required owner refs).0
unfolding is_owner_refs_update_required
is_owner_refs_update_required-IsOwned owner [] = inl (refl, refl)
is_owner_refs_update_required-IsOwned owner (ref ∷ refs) =
    let P : List OwnerReference × Bool → Type 0 = λ r. IsOwned owner r.0 in
    let ih = is_owner_refs_update_required-IsOwned owner refs in
    if-cases P (not (ref.uid == owner.uid)) _ _ (λ _. inr ih)
      (λ same.
        let uid : ref.uid ≡ owner.uid = ==→≡ ref.uid owner.uid (ground arith) in
        if-cases P (not (same_controller ref.controller owner.controller)) _ _
          (λ _. inl (uid, refl))
          (λ right. inl (uid, same_controller-eq ref.controller owner.controller (ground arith))))

is_owner_refs_update_required-same :
    (owner : OwnerReference) (refs : List OwnerReference)
    → (is_owner_refs_update_required owner refs).1 ≡ false
    → (is_owner_refs_update_required owner refs).0 ≡ refs
unfolding is_owner_refs_update_required
is_owner_refs_update_required-same owner [] = λ h. cc
is_owner_refs_update_required-same owner (ref ∷ refs) =
    let P : List OwnerReference × Bool → Type 0 = λ r. r.1 ≡ false → r.0 ≡ ref ∷ refs in
    let ih = is_owner_refs_update_required-same owner refs in
    if-cases P (not (ref.uid == owner.uid)) _ _ (λ _ h. ap (λ rest. ref ∷ rest) (ih h))
      (λ _.
        if-cases P (not (same_controller ref.controller owner.controller)) _ _ (λ _ h. cc)
          (λ _ _. refl))

-- the references after a sync, whether they had to change or not
kept-IsOwned :
    (owner : OwnerReference) (refs : List OwnerReference) (changed : Bool)
    → (is_owner_refs_update_required owner refs).1 ≡ changed
    → IsOwned owner (if changed then (is_owner_refs_update_required owner refs).0 else refs)
kept-IsOwned owner refs true eq = is_owner_refs_update_required-IsOwned owner refs
kept-IsOwned owner refs false eq =
    subst (IsOwned owner) (is_owner_refs_update_required-same owner refs eq)
      (is_owner_refs_update_required-IsOwned owner refs)

-- `Create` and `Update` of the API server store the object, and commands do not change it.
pub record NodeStore {S : Type 0} (exec : Exec S) (create update : ZfsNode → S → Ran S (Unit {0}))
    (nodes : S → Str → Option ZfsNode) : Type 0 where
  pub create_stored :
      (node : ZfsNode) (s : S)
      → succeeded (create node s) ≡ true
      → nodes (create node s).1 node.name ≡ some node
  pub update_stored :
      (node : ZfsNode) (s : S)
      → succeeded (update node s) ≡ true
      → nodes (update node s).1 node.name ≡ some node
  pub exec_nodes :
      (command : Str) (args : List Str) (s : S) (name : Str)
      → nodes (exec command args s).1 name ≡ nodes s name

-- The object is there, and says what it has to say of the pools and the owner.
abbrev pub IsReported :
    {S : Type 0} → (S → Str → Option ZfsNode) → Str → List Pool → OwnerReference → S → Type 0
IsReported nodes name pools owner s =
    (node : ZfsNode) × (nodes s name ≡ some node)
    × (node.pools ≡ pools)
    × IsOwned owner node.owner_references

-- the cache of the lister is up to date
abbrev pub IsFresh : Result ZfsNode → Str → Option ZfsNode → Type 0
IsFresh (ok node) name stored = (stored ≡ some node) × (node.name ≡ name)
IsFresh (err e) name stored = Unit

or_plain-succeeded :
    {S A : Type 0} (ran : Ran S A)
    → succeeded (or_plain ran) ≡ true
    → (succeeded ran ≡ true) × ((or_plain ran).1 ≡ ran.1)
or_plain-succeeded (ok a, s) h = (refl, refl)
or_plain-succeeded (err e, s) h = cc

module _ {S : Type 0} {exec : Exec S} {create update : ZfsNode → S → Ran S (Unit {0})}
    {nodes : S → Str → Option ZfsNode} (store : NodeStore exec create update nodes)
    (deep_equal : List Pool → List Pool → Bool)
    (equal : (a b : List Pool) → deep_equal a b ≡ true → a ≡ b) (owner : OwnerReference) where
  open store use {create_stored, update_stored, exec_nodes}

  new_node-ok :
      (name : Str) (node : ZfsNode) (pools : List Pool)
      → new_node name pools owner ≡ ok node
      → (node.name ≡ name) × (node.pools ≡ pools) × (node.owner_references ≡ owner ∷ [])
  new_node-ok name node pools =
      let P : Result ZfsNode → Type 0 = λ r.
        r ≡ ok node
        → (node.name ≡ name) × (node.pools ≡ pools) × (node.owner_references ≡ owner ∷ []) in
      if-cases P (is_empty name) _ _ (λ _ h. cc) (λ _ h. ground arith)

  created-IsReported :
      (name : Str) (node : ZfsNode) (pools : List Pool) (t : S)
      → new_node name pools owner ≡ ok node
      → succeeded (or_plain (create node t)) ≡ true
      → IsReported nodes name pools owner (or_plain (create node t)).1
  created-IsReported name node pools t built h =
      let (named, same, owned) = new_node-ok name node pools built in
      let (did, kept) = or_plain-succeeded (create node t) h in
      let stored = create_stored node t did in
      (
        node,
        ap (λ u. nodes u name) kept ∙ ap (nodes (create node t).1) (sym named) ∙ stored,
        same,
        subst (IsOwned owner) (sym owned) (inl (refl, refl)),
      )

  abbrev renewed : ZfsNode → List Pool → Bool → Bool → ZfsNode
  renewed node pools refs_changed pools_changed = record node {
    owner_references =
        if refs_changed
        then (is_owner_refs_update_required owner node.owner_references).0
        else node.owner_references;
    pools = if pools_changed then pools else node.pools;
  }

  update_if-Stored :
      (new : ZfsNode) (name : Str) (s : S)
      → new.name ≡ name
      → succeeded (or_plain (update new s)) ≡ true
      → nodes (or_plain (update new s)).1 name ≡ some new
  update_if-Stored new name s named h =
      let (did, kept) = or_plain-succeeded (update new s) h in
      ap (λ u. nodes u name) kept
      ∙ ap (nodes (update new s).1) (sym named)
      ∙ update_stored new s did

  renewed-pools :
      (node : ZfsNode) (pools : List Pool) (refs_changed pools_changed : Bool)
      → not (deep_equal node.pools pools) ≡ pools_changed
      → (renewed node pools refs_changed pools_changed).pools ≡ pools
  renewed-pools node pools refs_changed true eq = refl
  renewed-pools node pools refs_changed false eq = equal node.pools pools (ground arith)

  renewed-Stored :
      (node : ZfsNode) (name : Str) (pools : List Pool) (s : S) (refs_changed pools_changed : Bool)
      → nodes s name ≡ some node
      → node.name ≡ name
      → let new = renewed node pools refs_changed pools_changed in
        let ran =
          update_if exec deep_equal create update owner (refs_changed || pools_changed) new s in
        succeeded ran ≡ true → nodes ran.1 name ≡ some new
  renewed-Stored node name pools s true pools_changed there named h =
      update_if-Stored (renewed node pools true pools_changed) name s named h
  renewed-Stored node name pools s false true there named h =
      update_if-Stored (renewed node pools false true) name s named h
  renewed-Stored node name pools s false false there named h = there

  updated-IsReported :
      (name : Str) (node : ZfsNode) (pools : List Pool) (s : S)
      → nodes s name ≡ some node
      → node.name ≡ name
      → succeeded (bring_up_to_date exec deep_equal create update owner node pools s) ≡ true
      → IsReported nodes name pools owner
          (bring_up_to_date exec deep_equal create update owner node pools s).1
  updated-IsReported name node pools s there named h =
      let refs_changed = (is_owner_refs_update_required owner node.owner_references).1 in
      let pools_changed = not (deep_equal node.pools pools) in
      (
        renewed node pools refs_changed pools_changed,
        renewed-Stored node name pools s refs_changed pools_changed there named h,
        renewed-pools node pools refs_changed pools_changed refl,
        kept-IsOwned owner node.owner_references refs_changed refl,
      )

  create_or_update-IsReported :
      (name : Str) (cached : Option ZfsNode) (pools : List Pool) (s : S)
      → ((node : ZfsNode) → cached ≡ some node → (nodes s name ≡ some node) × (node.name ≡ name))
      → let ran = create_or_update exec deep_equal create update owner name cached pools s in
        succeeded ran ≡ true → IsReported nodes name pools owner ran.1
  create_or_update-IsReported name none pools s fresh =
      let P : Ran S (Unit {0}) → Type 0 =
        λ ran. succeeded ran ≡ true → IsReported nodes name pools owner ran.1 in
      then-cases P (new_node name pools owner, s) _
        (λ node built. created-IsReported name node pools s built) (λ e h. cc)
  create_or_update-IsReported name (some node) pools s fresh =
      let (there, named) = fresh node refl in updated-IsReported name node pools s there named

  list_zfs_pool-eq :
      (s : S) (rows : List Pool)
      → All Listed rows
      → (exec zfs list_args s).0 ≡ ok (print_pools rows)
      → list_zfs_pool exec deep_equal create update owner s
        ≡ (ok (filter is_pool rows), (exec zfs list_args s).1)
  unfolding list_zfs_pool
  list_zfs_pool-eq s rows listed printed = go (exec zfs list_args s) printed
    where
      go :
          (ran : Ran S Str)
          → ran.0 ≡ ok (print_pools rows)
          → (ran >> λ output t. (decode_list_output output, t)) ≡ (ok (filter is_pool rows), ran.1)
      go (ok output, t) eq =
          let same : output ≡ print_pools rows = cc in
          ap (λ r. (r, t)) (ap decode_list_output same ∙ decode_list_output-print_pools rows listed)
      go (err e, t) eq = cc

  abbrev Done : Str → List Pool → Option ZfsNode → Ran S (List Pool) → Type 0
  Done name pools node listing =
      let ran = listing >> λ read u.
      create_or_update exec deep_equal create update owner name node read u in
      succeeded ran ≡ true → IsReported nodes name pools owner ran.1

  -- If the node controller's sync of its ZFSNode object succeeds, where zfs list prints rows of pools
  -- and of datasets with ASCII names and sizes within int64, and the object that the lister has is the
  -- one that is stored under the name, then an object is stored under the name that lists exactly the
  -- pools among the rows and has a reference to the owner with its controller flag.
  pub sync_node-IsReported :
      (name : Str) (cached : Result ZfsNode) (rows : List Pool) (s : S)
      → IsFresh cached name (nodes s name)
      → All Listed rows
      → (exec zfs list_args s).0 ≡ ok (print_pools rows)
      → succeeded (sync_node exec deep_equal create update owner name cached s) ≡ true
      → IsReported nodes name
          (filter is_pool rows)
          owner
          (sync_node exec deep_equal create update owner name cached s).1
  unfolding sync_node
  sync_node-IsReported name cached rows s fresh listed printed =
      let listing = list_zfs_pool-eq s rows listed printed in go cached fresh listing
    where
      go :
          (c : Result ZfsNode)
          → IsFresh c name (nodes s name)
          → list_zfs_pool exec deep_equal create update owner s
            ≡ (ok (filter is_pool rows), (exec zfs list_args s).1)
          → let ran = (cached_node c, s) >> λ node t.
              list_zfs_pool exec deep_equal create update owner t >> λ read u.
              create_or_update exec deep_equal create update owner name node read u in
            succeeded ran ≡ true → IsReported nodes name (filter is_pool rows) owner ran.1
      go (ok node) (there, named) listing =
          let u = (exec zfs list_args s).1 in
          let kept : nodes u name ≡ some node = exec_nodes zfs list_args s name ∙ there in
          subst (Done name (filter is_pool rows) (some node)) (sym listing) (
            create_or_update-IsReported name (some node) (filter is_pool rows) u
              (λ n eq. (kept ∙ eq, cc)))
      go (err object_not_found) fresh listing =
          subst (Done name (filter is_pool rows) none) (sym listing) (
            create_or_update-IsReported name none (filter is_pool rows) (exec zfs list_args s).1
              (λ n eq. cc))
      go (err (status c)) fresh listing = λ h. cc
      go (err plain) fresh listing = λ h. cc
      go (err panicked) fresh listing = λ h. cc
      go (err still_waiting) fresh listing = λ h. cc
