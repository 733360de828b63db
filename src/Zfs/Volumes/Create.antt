-- ===== src/Zfs/Volumes/Create.antt =====
-- What the creating operations leave behind.
use zfs_localpv.Prelude.{
  Str, codes, ◌==◌, ==_iff, ==-self, List, [], ◌∷◌, ◌++◌, ◌≡◌, refl, sym, ap, ◌∙◌, subst, Bool,
  true, ◌||◌, ◌&&◌, if◌then◌else◌, contains, Bool-cases, inl, inr, get_or,
}
use zfs_localpv.Api.{ZfsVolume, ZfsSnapshot, ok, err}
use zfs_localpv.Zfs.Args.{
  volume_path, is_dataset, snapshot_path, build_zvol_create_args, build_dataset_create_args,
  build_clone_create_args, build_zfs_snap_create_args,
}
use zfs_localpv.Zfs.Args.Parse.{flag, read}
use zfs_localpv.Zfs.Args.Options.{
  read-user_opts, read_path, read-build_dataset_create_args, read-build_clone_create_args,
  read-build_zvol_create_args,
}
use zfs_localpv.Zfs.Host.{Ran, done, succeeded, Exec, zfs, target, makers, ZfsCommand}
use zfs_localpv.Zfs.Volumes.{unless_there, get_volume, create_volume, create_snapshot}

-- A command that makes `path`, by the verb and the target of its arguments.
abbrev pub Makes : Str → List Str → Type 0
Makes path command =
    (verb : Str) × (args : List Str) × (command ≡ verb ∷ args)
    × (contains verb makers ≡ true)
    × (target (read flag args).operands ≡ path)

create-Makes :
    (vol : ZfsVolume)
    → Makes
        (volume_path vol)
        (if is_dataset vol.spec then build_dataset_create_args vol else build_zvol_create_args vol)
unfolding ◌==◌
create-Makes vol =
    let (dataset_args, dataset_eq, dataset_read) = read-build_dataset_create_args vol in
    let (zvol_args, zvol_eq, zvol_read) = read-build_zvol_create_args vol in
    elim (Bool-cases (is_dataset vol.spec)) [
      | inl h ↦ (codes "create", dataset_args, rw h dataset_eq, refl, rw dataset_read refl)
      | inr h ↦ (codes "create", zvol_args, rw h zvol_eq, refl, rw zvol_read refl)
    ]

pub clone-Makes : (vol : ZfsVolume) → Makes (volume_path vol) (build_clone_create_args vol)
unfolding ◌==◌
clone-Makes vol =
    let (args, eq, args_read) = read-build_clone_create_args vol in
    (codes "clone", args, eq, refl, rw args_read refl)

snapshot-Makes : (snap : ZfsSnapshot) → Makes (snapshot_path snap) (build_zfs_snap_create_args snap)
unfolding build_zfs_snap_create_args snapshot_path ◌==◌
snapshot-Makes snap =
    let volume = get_or (codes "openebs.io/persistent-volume") snap.labels [] in
    let path = read_path snap.spec.pool_name (volume ++ (codes "@" ++ snap.name)) [] in
    (
      codes "snapshot",
      _,
      refl,
      refl,
      rw (read-user_opts snap.spec.user_properties (snapshot_path snap ∷ []), path) refl,
    )

pub done-state : {S A : Type 0} (ran : Ran S A) → (done ran).1 ≡ ran.1
done-state (ok a, s) = refl
done-state (err e, s) = refl

pub succeeded-done : {S A : Type 0} (ran : Ran S A) → succeeded (done ran) ≡ succeeded ran
succeeded-done (ok a, s) = refl
succeeded-done (err e, s) = refl

module _ {S : Type 0} {exec : Exec S} {exists : S → Str → Bool}
    (laws : ZfsCommand exec exists) where
  open laws use {list_there, list_reads, maker_exists}

  exists-done :
      (path : Str) (command : List Str) (s : S) (other : Str)
      → Makes path command
      → let after = done (exec zfs command s) in
        exists after.1 other ≡ (succeeded after && path == other || exists s other)
  exists-done path command s other (verb, args, eq, maker, made) =
      rw
        (
          eq,
          done-state (exec zfs (verb ∷ args) s),
          succeeded-done (exec zfs (verb ∷ args) s),
          sym made,
        )
        (maker_exists s verb args other maker)

  there-exists :
      (path : Str) (s : S) (other : Str)
      → exists s path ≡ true
      → exists s other ≡ (path == other || exists s other)
  there-exists path s other there = elim (Bool-cases (path == other)) [
    | inl same ↦ rw (same, sym ((==_iff path other).0 same)) there
    | inr differ ↦ rw differ refl
  ]

  pub made-exists :
      (path : Str) (command : List Str) (s : S) (other : Str)
      → Makes path command
      → let after = unless_there (get_volume exec path s) (λ t. done (exec zfs command t)) in
        exists after.1 other ≡ (succeeded after && path == other || exists s other)
  unfolding get_volume
  made-exists path command s other makes =
      go (exec zfs (codes "list" ∷ path ∷ []) s) (list_there s path) (list_reads s path)
    where
      go :
          (listed : Ran S Str)
          → (succeeded listed ≡ true → exists s path ≡ true)
          → listed.1 ≡ s
          → let after = unless_there (done listed) (λ t. done (exec zfs command t)) in
            exists after.1 other ≡ (succeeded after && path == other || exists s other)
      go (ok a, t) there same =
          ap (λ u. exists u other) same ∙ there-exists path s other (there refl)
      go (err e, t) there same =
          subst
            (λ u.
              exists (done (exec zfs command u)).1 other
              ≡ (succeeded (done (exec zfs command u)) && path == other || exists s other))
            (sym same) (exists-done path command s other makes)

  -- After `CreateVolume` the volume is there if it succeeded, nothing else has come into being, and
  -- nothing has gone.
  pub create_volume-exists :
      (vol : ZfsVolume) (s : S) (other : Str)
      → let after = create_volume exec vol s in
        exists after.1 other ≡ (succeeded after && volume_path vol == other || exists s other)
  unfolding create_volume
  create_volume-exists vol s other = made-exists (volume_path vol) _ s other (create-Makes vol)

  listed-kept :
      (path : Str) (s : S) (make : S → Ran S (Unit {0}))
      → succeeded (exec zfs (codes "list" ∷ path ∷ []) s) ≡ true
      → unless_there (get_volume exec path s) make ≡ (ok tt, s)
  unfolding get_volume
  listed-kept path s make = go (exec zfs (codes "list" ∷ path ∷ []) s) (list_reads s path)
    where
      go :
          (listed : Ran S Str)
          → listed.1 ≡ s
          → succeeded listed ≡ true
          → unless_there (done listed) make ≡ (ok tt, s)
      go (ok a, t) same h = ap (λ u. (ok tt, u)) same
      go (err e, t) same h = cc

  -- Once it has succeeded, `CreateVolume` succeeds again and changes nothing, if zfs list finds what is
  -- there.
  pub create_volume_again :
      (lists : (s : S) (name : Str)
        → exists s name ≡ true
        → succeeded (exec zfs (codes "list" ∷ name ∷ []) s) ≡ true)
      (vol : ZfsVolume) (s : S)
      → succeeded (create_volume exec vol s) ≡ true
      → let t = (create_volume exec vol s).1 in create_volume exec vol t ≡ (ok tt, t)
  unfolding create_volume
  create_volume_again lists vol s done_once =
      let t = (create_volume exec vol s).1 in
      let there = create_volume-exists vol s (volume_path vol) in
      listed-kept (volume_path vol) t _
        (lists t (volume_path vol) (there ∙ rw (done_once, ==-self (volume_path vol)) refl))

  -- After `CreateSnapshot` the snapshot is there if it succeeded, nothing else has come into
  -- being, and nothing has gone.
  pub create_snapshot-exists :
      (snap : ZfsSnapshot) (s : S) (other : Str)
      → let after = create_snapshot exec snap s in
        exists after.1 other ≡ (succeeded after && snapshot_path snap == other || exists s other)
  unfolding create_snapshot
  create_snapshot-exists snap s other =
      made-exists (snapshot_path snap) _ s other (snapshot-Makes snap)
