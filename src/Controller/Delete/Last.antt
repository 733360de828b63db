-- ===== src/Controller/Delete/Last.antt =====
-- When the deletion of a snapshot deletes its volume.
use zfs_localpv.Prelude.{
  Str, List, [], ◌∷◌, ◌++◌, ◌≡◌, refl, sym, ap, ◌∙◌, subst, Bool, true, false, ◌&&◌, Option, some,
  length, nat_eq, split, without, split_append, split_without, is_empty, arith,
}
use zfs_localpv.Api.{ZfsVolume, ZfsSnapshot, ok, internal, failed_precondition}
use zfs_localpv.Zfs.Host.{Ran}
use zfs_localpv.Controller.Server.{Cluster, ClusterLaws, Got, Same}
use zfs_localpv.Controller.Cases.{or_status-cases, unless_missing-cases}
use zfs_localpv.Controller.Delete.{
  is_marked, is_volume_eligible_for_deletion, delete_last, delete_listed, delete_snapshot_of,
  controller_delete_snapshot,
}

is_empty-name : (volume name : Str) → is_empty (volume ++ b'@' ∷ name) ≡ false
is_empty-name [] name = refl
is_empty-name (c ∷ volume) name = refl

id_parts :
    (volume name : Str)
    → without b'@' volume ≡ true
    → without b'@' name ≡ true
    → split b'@' (volume ++ b'@' ∷ name) ≡ volume ∷ name ∷ []
id_parts volume name v n =
    split_append b'@' volume name v ∙ ap (λ rest. volume ∷ rest) (split_without b'@' name n)

module _ {S : Type 0} {api : Cluster S} {volumes : S → Str → Option ZfsVolume}
    {snapshots : S → Str → Option ZfsSnapshot} (laws : ClusterLaws api volumes snapshots) where
  open laws use {
    read_volume_keeps, read_volume_got, read_snapshot_keeps, snapshots_of_keeps, snapshots_of_all,
    remove_snapshot_keeps,
  }

  eligible_is_marked :
      (volume : Str) (s : S) (eligible : Bool)
      → (is_volume_eligible_for_deletion api volume s).0 ≡ ok eligible
      → (vol : ZfsVolume) × (volumes s volume ≡ some vol) × (eligible ≡ is_marked vol)
  unfolding is_volume_eligible_for_deletion
  eligible_is_marked volume s eligible =
      or_status-cases
        (λ ran.
          ran.0 ≡ ok eligible
          → (vol : ZfsVolume) × (volumes s volume ≡ some vol) × (eligible ≡ is_marked vol))
        internal (api.read_volume volume s) _
        (λ vol eq h. (vol, subst (Got volumes volume s) eq (read_volume_got volume s), cc))
        (λ e h. cc)

  eligible_keeps :
      (volume : Str) (s : S) → Same volumes s (is_volume_eligible_for_deletion api volume s).1
  unfolding is_volume_eligible_for_deletion
  eligible_keeps volume s =
      or_status-cases (λ ran. Same volumes s ran.1) internal (api.read_volume volume s) _
        (λ _ _. (read_volume_keeps volume s).0) (λ _. (read_volume_keeps volume s).0)

  -- Neither of these parts of `DeleteSnapshot` changes a volume where the last one does not.
  Spared : Str → List ZfsSnapshot → S → Type 0
  Spared volume snaps s =
      (vol : ZfsVolume)
      → volumes s volume ≡ some vol
      → (nat_eq (length snaps) 1 && is_marked vol) ≡ false

  delete_listed-volumes :
      (volume name : Str) (snaps : List ZfsSnapshot) (s : S)
      → Spared volume snaps s
      → Same volumes s (delete_listed api volume name snaps s).1
  unfolding Spared
  delete_listed-volumes volume name snaps s spared =
      let P : Ran S (Unit {0}) → Type 0 = λ ran. Same volumes s ran.1 in
      let removed = api.remove_snapshot name s in
      let asked = is_volume_eligible_for_deletion api volume removed.1 in
      let kept = remove_snapshot_keeps name s in
      let kept_asked : Same volumes s asked.1 =
        λ other. eligible_keeps volume removed.1 other ∙ kept other in
      or_status-cases P internal removed _
        (λ _ _.
          or_status-cases P failed_precondition asked (delete_last api volume snaps)
            (λ eligible eq.
              let (vol, present, marked) = eligible_is_marked volume removed.1 eligible eq in
              let no : (nat_eq (length snaps) 1 && eligible) ≡ false =
                rw marked (spared vol (sym (kept volume) ∙ present)) in
              rw no kept_asked)
            (λ _. kept_asked))
        (λ _. kept)

  delete_snapshot_of-volumes :
      (volume name : Str) (s : S)
      → ((snaps : List ZfsSnapshot)
          → (api.snapshots_of volume (api.read_snapshot name s).1).0 ≡ ok snaps
          → Spared volume snaps s)
      → Same volumes s (delete_snapshot_of api (volume ∷ name ∷ []) s).1
  unfolding delete_snapshot_of Spared
  delete_snapshot_of-volumes volume name s spared =
      let P : Ran S (Unit {0}) → Type 0 = λ ran. Same volumes s ran.1 in
      let found = api.read_snapshot name s in
      let listed = api.snapshots_of volume found.1 in
      let kept = (read_snapshot_keeps name s).0 in
      let kept_listed : Same volumes s listed.1 =
        λ other. (snapshots_of_keeps volume found.1).0 other ∙ kept other in
      unless_missing-cases P found _
        (λ _ _.
          or_status-cases P failed_precondition listed (delete_listed api volume name)
            (λ snaps eq other.
              delete_listed-volumes volume name snaps listed.1
                (λ vol present. spared snaps eq vol (sym (kept_listed volume) ∙ present)) other
              ∙ kept_listed other)
            (λ _. kept_listed))
        (λ _. kept) (λ _. kept)

  delete_snapshot-volumes :
      (volume name : Str) (s : S)
      → without b'@' volume ≡ true
      → without b'@' name ≡ true
      → ((snaps : List ZfsSnapshot)
          → (api.snapshots_of volume (api.read_snapshot name s).1).0 ≡ ok snaps
          → Spared volume snaps s)
      → Same volumes s (controller_delete_snapshot api (volume ++ b'@' ∷ name) s).1
  unfolding controller_delete_snapshot
  delete_snapshot-volumes volume name s v n spared =
      rw (is_empty-name volume name, id_parts volume name v n)
        (delete_snapshot_of-volumes volume name s spared)

  -- `DeleteSnapshot` of `volume@name` changes no volume, whether it succeeds or fails, if the
  -- volume has not got the annotation that asks for its deletion.
  pub controller_delete_snapshot-unmarked :
      (volume name : Str) (s : S)
      → without b'@' volume ≡ true
      → without b'@' name ≡ true
      → ((vol : ZfsVolume) → volumes s volume ≡ some vol → is_marked vol ≡ false)
      → (other : Str)
      → volumes (controller_delete_snapshot api (volume ++ b'@' ∷ name) s).1 other ≡ volumes s other
  unfolding Spared
  controller_delete_snapshot-unmarked volume name s v n unmarked =
      delete_snapshot-volumes volume name s v n
        (λ snaps _ vol present. let no = unmarked vol present in ground arith)
