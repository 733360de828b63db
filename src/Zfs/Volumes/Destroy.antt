-- ===== src/Zfs/Volumes/Destroy.antt =====
-- What the destroying operations remove.
use zfs_localpv.Prelude.{
  Str, codes, [], ◌∷◌, ◌≡◌, refl, sym, ap, ◌∙◌, Bool, true, false, Option, none, some, subst, All,
  inl, inr, ◌⊎◌,
}
use zfs_localpv.Api.{ZfsVolume, ZfsSnapshot, ok, err, Error}
use zfs_localpv.Zfs.Args.{
  volume_path, snapshot_path, build_volume_destroy_args, build_zfs_snap_destroy_args,
}
use zfs_localpv.Zfs.Host.{names_one, Ran, ◌>>◌, done, succeeded, Exec, zfs, below, ZfsCommand}
use zfs_localpv.Zfs.Volumes.{
  if_there, logged, get_volume, destroy_snapshot, destroy_volume, destroy_clone_snapshot,
  source_volume, for_source, clone_snapshot,
}
use zfs_localpv.Zfs.Volumes.Create.{done-state, succeeded-done}
use zfs_localpv.Zfs.Volumes.Untouched.{logged-state}
use zfs_localpv.Zfs.Volumes.Clone.{succeeded-then, clone_datasets}

-- What neither part of a chain changes, the chain does not change.
pub then_same :
    {S A B C : Type 0} (view : S → C) (s : S) (ran : Ran S A) (next : A → S → Ran S B)
    → view ran.1 ≡ view s
    → ((a : A) (t : S) → view (next a t).1 ≡ view t)
    → view (ran >> next).1 ≡ view s
then_same view s (ok a, t) next first second = second a t ∙ first
then_same view s (err e, t) next first second = first

apart-volume :
    (vol : ZfsVolume) (src : Option Str) (other : Str)
    → All (λ name. below name other ≡ false) (clone_datasets vol src)
    → below (volume_path vol) other ≡ false
apart-volume vol none other (apart, _) = apart
apart-volume vol (some src_vol) other (apart, _) = apart

-- The dataset or snapshot is gone after the run from `s`, or `zfs list` failed for it in `s`: the driver
-- takes any failure of `zfs list` for an answer that it is not there.
abbrev pub Destroyed : {S : Type 0} → Exec S → (S → Str → Bool) → Str → S → S → Type 0
Destroyed exec exists path s t =
    (exists t path ≡ false) ⊎ (succeeded (exec zfs (codes "list" ∷ path ∷ []) s) ≡ false)

-- the operands of the removal name one dataset and one snapshot
abbrev pub NamesOne : ZfsVolume → Option Str → Type 0
NamesOne vol none = names_one true (volume_path vol) ≡ true
NamesOne vol (some src_vol) =
    (names_one true (volume_path vol) ≡ true)
    × (names_one false (snapshot_path (clone_snapshot vol src_vol)) ≡ true)

NamesOne-volume :
    (vol : ZfsVolume) (src : Option Str)
    → NamesOne vol src
    → names_one true (volume_path vol) ≡ true
NamesOne-volume vol none one = one
NamesOne-volume vol (some src_vol) one = one.0

module _ {S : Type 0} {exec : Exec S} {exists : S → Str → Bool}
    (laws : ZfsCommand exec exists) where
  open laws use {list_reads, destroy_target, destroy_others, destroy_missing}

  get_volume-cases :
      (P : Ran S (Unit {0}) → Type 0) (name : Str) (s : S)
      → P (ok tt, s)
      → (succeeded (exec zfs (codes "list" ∷ name ∷ []) s) ≡ false → (e : Error) → P (err e, s))
      → P (get_volume exec name s)
  unfolding get_volume
  get_volume-cases P name s there missing =
      go (exec zfs (codes "list" ∷ name ∷ []) s) refl (list_reads s name)
    where
      go :
          (ran : Ran S Str)
          → succeeded (exec zfs (codes "list" ∷ name ∷ []) s) ≡ succeeded ran
          → ran.1 ≡ s
          → P (done ran)
      go (ok a, t) found same = subst (λ u. P (ok tt, u)) (sym same) there
      go (err e, t) found same = subst (λ u. P (err e, u)) (sym same) (missing found e)

  -- Both operations look for the pool, fail without it, and leave alone what is not found.
  removal-cases :
      (P : Ran S (Unit {0}) → Type 0) (pool path : Str) (act : S → Ran S (Unit {0})) (s : S)
      → ((e : Error) → P (err e, s))
      → (succeeded (exec zfs (codes "list" ∷ path ∷ []) s) ≡ false → P (ok tt, s))
      → P (act s)
      → P (get_volume exec pool s >> λ _ t. if_there (get_volume exec path t) act)
  removal-cases P pool path act s failed missing there =
      get_volume-cases (λ ran. P (ran >> λ _ t. if_there (get_volume exec path t) act)) pool s
        (get_volume-cases (λ ran. P (if_there ran act)) path s there (λ h _. missing h))
        (λ _. failed)

  -- `DestroySnapshot` that succeeds leaves the snapshot gone, unless `zfs list` failed for it.
  pub destroy_snapshot-Destroyed :
      (snap : ZfsSnapshot) (s : S)
      → succeeded (destroy_snapshot exec snap s) ≡ true
      → Destroyed exec exists (snapshot_path snap) s (destroy_snapshot exec snap s).1
  unfolding destroy_snapshot build_zfs_snap_destroy_args
  destroy_snapshot-Destroyed snap s =
      let path = snapshot_path snap in
      removal-cases (λ ran. succeeded ran ≡ true → Destroyed exec exists path s ran.1)
        snap.spec.pool_name path _ s (λ e h. cc) (λ unlisted _. inr unlisted)
        (λ h.
          let ran = exec zfs (build_zfs_snap_destroy_args snap) s in
          inl (
            ap (λ u. exists u path) (done-state ran)
            ∙ destroy_target s false path (sym (succeeded-done ran) ∙ h)))

  -- `DestroySnapshot` makes nothing, and removes nothing but its snapshot.
  pub destroy_snapshot-others :
      (snap : ZfsSnapshot) (s : S) (other : Str)
      → names_one false (snapshot_path snap) ≡ true
      → below (snapshot_path snap) other ≡ false
      → exists (destroy_snapshot exec snap s).1 other ≡ exists s other
  unfolding destroy_snapshot build_zfs_snap_destroy_args
  destroy_snapshot-others snap s other one apart =
      removal-cases (λ ran. exists ran.1 other ≡ exists s other) snap.spec.pool_name
        (snapshot_path snap) _ s (λ e. refl) (λ _. refl)
        (ap (λ u. exists u other) (done-state (exec zfs (build_zfs_snap_destroy_args snap) s))
          ∙ destroy_others s false (snapshot_path snap) other one apart)

  destroy_snapshot-missing :
      (snap : ZfsSnapshot) (s : S) (other : Str)
      → exists s other ≡ false
      → exists (destroy_snapshot exec snap s).1 other ≡ false
  unfolding destroy_snapshot build_zfs_snap_destroy_args
  destroy_snapshot-missing snap s other missing =
      removal-cases (λ ran. exists ran.1 other ≡ false) snap.spec.pool_name (snapshot_path snap) _ s
        (λ e. missing) (λ _. missing)
        (ap (λ u. exists u other) (done-state (exec zfs (build_zfs_snap_destroy_args snap) s))
          ∙ destroy_missing s false (snapshot_path snap) other missing)

  -- What the removal of a clone's snapshot leaves alone.
  destroy_clone_snapshot-missing :
      (vol : ZfsVolume) (src : Option Str) (s : S) (other : Str)
      → exists s other ≡ false
      → exists
          (for_source src (λ v t. logged (destroy_snapshot exec (clone_snapshot vol v) t)) s).1
          other
        ≡ false
  destroy_clone_snapshot-missing vol none s other missing = missing
  destroy_clone_snapshot-missing vol (some src_vol) s other missing =
      ap (λ u. exists u other) (logged-state (destroy_snapshot exec (clone_snapshot vol src_vol) s))
      ∙ (destroy_snapshot-missing (clone_snapshot vol src_vol) s other missing)

  -- `DestroyVolume` that succeeds leaves the volume gone, unless `zfs list` failed for it. That it
  -- could not remove the snapshot that a clone was made from does not make it fail.
  pub destroy_volume-Destroyed :
      (vol : ZfsVolume) (s : S)
      → succeeded (destroy_volume exec vol s) ≡ true
      → Destroyed exec exists (volume_path vol) s (destroy_volume exec vol s).1
  unfolding destroy_volume destroy_clone_snapshot build_volume_destroy_args
  destroy_volume-Destroyed vol s =
      let path = volume_path vol in
      removal-cases (λ ran. succeeded ran ≡ true → Destroyed exec exists path s ran.1)
        vol.spec.pool_name path _ s (λ e h. cc) (λ unlisted _. inr unlisted)
        (λ h.
          let ran = exec zfs (build_volume_destroy_args vol) s in
          inl (
            succeeded-then (λ t. exists t path ≡ false) ran _ h
              λ once _ _.
                destroy_clone_snapshot-missing vol (source_volume vol) ran.1 path
                  (destroy_target s true path once)))

  for_source-others :
      (vol : ZfsVolume) (src : Option Str) (s : S) (other : Str)
      → NamesOne vol src
      → All (λ name. below name other ≡ false) (clone_datasets vol src)
      → exists
          (for_source src (λ v t. logged (destroy_snapshot exec (clone_snapshot vol v) t)) s).1
          other
        ≡ exists s other
  for_source-others vol none s other one apart = refl
  for_source-others vol (some src_vol) s other (_, one) (_, (apart, _)) =
      ap (λ u. exists u other) (logged-state (destroy_snapshot exec (clone_snapshot vol src_vol) s))
      ∙ destroy_snapshot-others (clone_snapshot vol src_vol) s other one apart

  -- `DestroyVolume` leaves alone what does not lie below the volume or, for a clone of a volume,
  -- below the snapshot that it was made from, if these names have no "," and no "%", and the volume's
  -- no "@". This holds also where it fails.
  pub destroy_volume-others :
      (vol : ZfsVolume) (s : S) (other : Str)
      → NamesOne vol (source_volume vol)
      → All (λ name. below name other ≡ false) (clone_datasets vol (source_volume vol))
      → exists (destroy_volume exec vol s).1 other ≡ exists s other
  unfolding destroy_volume destroy_clone_snapshot build_volume_destroy_args
  destroy_volume-others vol s other one apart =
      removal-cases (λ ran. exists ran.1 other ≡ exists s other) vol.spec.pool_name
        (volume_path vol) _ s (λ e. refl) (λ _. refl)
        (then_same (λ t. exists t other) s (exec zfs (build_volume_destroy_args vol) s)
          (λ _ t. destroy_clone_snapshot exec vol t)
          (destroy_others s true (volume_path vol) other
            (NamesOne-volume vol (source_volume vol) one)
            (apart-volume vol (source_volume vol) other apart))
          (λ _ t. for_source-others vol (source_volume vol) t other one apart))
