-- ===== src/Gc/Children.antt =====
-- The backups that follow a backup, which the collector looks up.
use zfs_localpv.Prelude.{
  Str, List, [], ◌∷◌, ◌++◌, ◌≡◌, ◌↔◌, refl, sym, ap, ◌∙◌, Bool, true, false, if◌then◌else◌,
  is_empty, without, Any, contains, map, append-nil, append_assoc, inl, inr,
}
use zfs_localpv.Api.{ZfsBackup}
use zfs_localpv.Gc.Keys.{key_parts, key_same, only_key, has_key}
use zfs_localpv.Zfs.Host.{Ran}
use zfs_localpv.Gc.{
  IndexFunc, get_backup_key_by_spec, backup_snapshot_index_func,
  backup_previous_snapshot_index_func, delete_if_none, delete_orphaned_inc_backup, child_backups,
  delete_each, delete_backups_referencing_deleted_backup, handle_backup_deletion,
}

-- client-go's documentation of `ByIndex`: the objects of the cache whose index values have the key.
pub record Indexes (by_index : IndexFunc → Str → List ZfsBackup) (cached : ZfsBackup → Type 0)
    : Type 0 where
  pub found_iff :
      (f : IndexFunc) (key : Str) (backup : ZfsBackup)
      → Any (λ b. b ≡ backup) (by_index f key) ↔ (cached backup × (contains key (f backup) ≡ true))

-- no dot in the names of the volume and the snapshots
abbrev pub IsPlain : ZfsBackup → Type 0
IsPlain backup =
    (without b'.' backup.volume_name ≡ true)
    × (without b'.' backup.snap_name ≡ true)
    × (without b'.' backup.prev_snap_name ≡ true)

-- the previous snapshot of the child is the snapshot of the parent
abbrev pub IsChild : ZfsBackup → ZfsBackup → Type 0
IsChild child parent =
    (child.volume_name ≡ parent.volume_name)
    × (child.owner_node_id ≡ parent.owner_node_id)
    × (child.prev_snap_name ≡ parent.snap_name)

named_iff :
    (backups : List ZfsBackup) (name : Str)
    → Any (λ n. n ≡ name) (map (λ b. b.name) backups)
      ↔ ((child : ZfsBackup) × Any (λ b. b ≡ child) backups × (child.name ≡ name))
named_iff [] name = (λ h. absurd h, λ (child, h, _). absurd h)
named_iff (b ∷ backups) name =
    let (to, from) = named_iff backups name in
    (
      λ any. elim any [
        | inl here ↦ (b, inl refl, here)
        | inr rest ↦ let (child, there, same) = to rest in (child, inr there, same)
      ],
      λ (child, there, same). elim there [
        | inl here ↦ inl (ap (λ x. x.name) here ∙ same)
        | inr rest ↦ inr (from (child, rest, same))
      ],
    )

module _ {S : Type 0} {by_index : IndexFunc → Str → List ZfsBackup} {cached : ZfsBackup → Type 0}
    (laws : Indexes by_index cached) (delete : Str → S → Ran S (Unit {0})) where
  open laws use {found_iff}

  indexed-IsChild :
      (child parent : ZfsBackup)
      → IsPlain child
      → IsPlain parent
      → is_empty parent.snap_name ≡ false
      → (contains
            (get_backup_key_by_spec parent.volume_name parent.owner_node_id parent.snap_name)
            (backup_previous_snapshot_index_func child)
          ≡ true)
        ↔ IsChild child parent
  unfolding backup_previous_snapshot_index_func get_backup_key_by_spec
  indexed-IsChild child parent (v, s, p) (v', s', p') full = (
    λ h.
        key_parts child.volume_name child.owner_node_id child.prev_snap_name parent.volume_name
          parent.owner_node_id parent.snap_name v p v' s'
          (only_key (is_empty child.prev_snap_name) _ _ h),
    λ (volume, node, snap).
        let none_empty : is_empty child.prev_snap_name ≡ false = ap is_empty snap ∙ full in
        has_key (is_empty child.prev_snap_name) _ _ none_empty (key_same volume node snap),
  )

  -- The backups that are looked up when one is deleted are the cached backups of the same volume and
  -- node whose previous snapshot is that of the deleted one, if the names of volumes and snapshots have
  -- no dot and the deleted backup names a snapshot.
  child_backups_iff :
      (child parent : ZfsBackup)
      → IsPlain child
      → IsPlain parent
      → is_empty parent.snap_name ≡ false
      → Any (λ b. b ≡ child) (child_backups by_index delete parent)
        ↔ (cached child × IsChild child parent)
  unfolding child_backups
  child_backups_iff child parent plain plain' full =
      let (to, from) =
        found_iff backup_previous_snapshot_index_func
          (get_backup_key_by_spec parent.volume_name parent.owner_node_id parent.snap_name) child in
      let (onwards, backwards) = indexed-IsChild child parent plain plain' full in
      (
        λ any. let (there, indexed) = to any in (there, onwards indexed),
        λ (there, is_child). from (there, backwards is_child),
      )

  child_backups-cached :
      (child parent : ZfsBackup)
      → Any (λ b. b ≡ child) (child_backups by_index delete parent)
      → cached child
  unfolding child_backups
  child_backups-cached child parent there =
      ((found_iff backup_previous_snapshot_index_func
          (get_backup_key_by_spec parent.volume_name parent.owner_node_id parent.snap_name) child).0
        there).0

  module _ (requests : S → List Str)
      (delete_requests : (name : Str) (s : S)
        → requests (delete name s).1 ≡ requests s ++ name ∷ []) where
    delete_each-requests :
        (backups : List ZfsBackup) (s : S)
        → requests (delete_each by_index delete backups s) ≡ requests s ++ map (λ b. b.name) backups
    unfolding delete_each
    delete_each-requests [] s = sym (append-nil (requests s))
    delete_each-requests (b ∷ backups) s =
        delete_each-requests backups (delete b.name s).1
        ∙ ap (λ before. before ++ map (λ x. x.name) backups) (delete_requests b.name s)
        ∙ append_assoc (requests s) (b.name ∷ []) (map (λ x. x.name) backups)

    -- When a backup is deleted, the collector asks the API server to delete certain names, and they are
    -- exactly the names of the cached backups of the same volume and node whose previous snapshot is
    -- that of the deleted one, if the names of volumes and snapshots have no dot and the deleted backup
    -- names a snapshot. The state remembers the requests.
    pub handle_backup_deletion-requests :
        (parent : ZfsBackup) (s : S)
        → ((child : ZfsBackup) → cached child → IsPlain child)
        → IsPlain parent
        → is_empty parent.snap_name ≡ false
        → (names : List Str) × (requests (handle_backup_deletion by_index delete parent s)
            ≡ requests s ++ names)
          × ((name : Str)
              → Any (λ n. n ≡ name) names
                ↔ ((child : ZfsBackup) × cached child × IsChild child parent × (child.name ≡ name)))
    unfolding handle_backup_deletion delete_backups_referencing_deleted_backup
    handle_backup_deletion-requests parent s plain plain' full =
        let children = child_backups by_index delete parent in
        (
          map (λ b. b.name) children,
          delete_each-requests children s,
          λ name. (
            λ any.
                let (child, there, same) = (named_iff children name).0 any in
                let known = child_backups-cached child parent there in
                (
                  child,
                  known,
                  ((child_backups_iff child parent (plain child known) plain' full).0 there).1,
                  same,
                ),
            λ (child, known, is_child, same). (named_iff children name).1 (
              child,
              (child_backups_iff child parent (plain child known) plain' full).1 (known, is_child),
              same,
            ),
          ),
        )

  some_parent :
      (parents : List ZfsBackup) (backup parent : ZfsBackup) (s : S)
      → Any (λ b. b ≡ parent) parents
      → delete_if_none by_index delete parents backup s ≡ s
  some_parent [] backup parent s any = absurd any
  some_parent (b ∷ parents) backup parent s any = refl

  either : (absent : Bool) (s t : S) → t ≡ s → (if absent then s else t) ≡ s
  either true s t same = refl
  either false s t same = same

  -- A backup is not taken for an orphan while the backup of its previous snapshot is cached: the
  -- collector then does nothing. The names may have dots here.
  pub delete_orphaned_inc_backup-kept :
      (backup parent : ZfsBackup) (s : S)
      → cached parent
      → IsChild backup parent
      → delete_orphaned_inc_backup by_index delete backup s ≡ s
  unfolding delete_orphaned_inc_backup backup_snapshot_index_func get_backup_key_by_spec
  delete_orphaned_inc_backup-kept backup parent s there (volume, node, snap) =
      let key =
        get_backup_key_by_spec backup.volume_name backup.owner_node_id backup.prev_snap_name in
      let parents = by_index backup_snapshot_index_func key in
      let own : get_backup_key_by_spec parent.volume_name parent.owner_node_id parent.snap_name
          ≡ key =
        key_same (sym volume) (sym node) (sym snap) in
      either (is_empty backup.prev_snap_name) s _ (
        some_parent parents backup parent s (
          (found_iff backup_snapshot_index_func key parent).1
            (there, has_key false _ key refl own)))
