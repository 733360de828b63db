-- ===== src/Zfs/Volumes/Clone.antt =====
-- What `CreateClone` leaves behind.
use zfs_localpv.Prelude.{
  Str, codes, ◌==◌, ==-self, List, [], ◌∷◌, ◌++◌, ◌≡◌, refl, ◌∙◌, Bool, true, false, Option, none,
  some, ◌||◌, ◌&&◌, Bool-cases, inl, inr, All,
}
use zfs_localpv.Api.{ZfsVolume, ZfsSnapshot, ok, err}
use zfs_localpv.Zfs.Args.{volume_path, snapshot_path}
use zfs_localpv.Zfs.Host.{Ran, ◌>>◌, succeeded, Exec, ZfsCommand}
use zfs_localpv.Zfs.Volumes.{
  create_snapshot, create_clone_snapshot, clone_dataset, create_clone, renew_uuid, source_volume,
  for_source, clone_snapshot,
}
use zfs_localpv.Zfs.Volumes.Create.{made-exists, clone-Makes, create_snapshot-exists}

-- What is there in `s` is there in `t`.
abbrev pub Grows : {S : Type 0} → (S → Str → Bool) → S → S → Type 0
Grows exists s t = (other : Str) → exists s other ≡ true → exists t other ≡ true

pub Grows-then :
    {S A B : Type 0} (exists : S → Str → Bool) (s : S) (ran : Ran S A) (next : A → S → Ran S B)
    → Grows exists s ran.1
    → ((a : A) (t : S) → Grows exists t (next a t).1)
    → Grows exists s (ran >> next).1
Grows-then exists s (ok a, t) next first then_next other there =
    then_next a t other (first other there)
Grows-then exists s (err e, t) next first then_next other there = first other there

-- A chain that succeeds has succeeded in both parts.
pub succeeded-then :
    {S A B : Type 0} (P : S → Type 0) (ran : Ran S A) (next : A → S → Ran S B)
    → succeeded (ran >> next) ≡ true
    → (succeeded ran ≡ true → (a : A) → succeeded (next a ran.1) ≡ true → P (next a ran.1).1)
    → P (ran >> next).1
succeeded-then P (ok a, t) next h both = both refl a h
succeeded-then P (err e, t) next h both = cc

-- the datasets that a clone needs: itself, and the snapshot of the volume that it clones
abbrev pub clone_datasets : ZfsVolume → Option Str → List Str
clone_datasets vol none = volume_path vol ∷ []
clone_datasets vol (some src_vol) =
    volume_path vol ∷ snapshot_path (clone_snapshot vol src_vol) ∷ []

kept : (made present after : Bool) → after ≡ (made || present) → present ≡ true → after ≡ true
kept true present after eq h = eq
kept false present after eq h = eq ∙ h

module _ {S : Type 0} {exec : Exec S} {exists : S → Str → Bool}
    (laws : ZfsCommand exec exists) where
  create_snapshot-Grows :
      (snap : ZfsSnapshot) (s : S) → Grows exists s (create_snapshot exec snap s).1
  create_snapshot-Grows snap s other = kept _ _ _ (create_snapshot-exists laws snap s other)

  for_source-Grows :
      (vol : ZfsVolume) (src : Option Str) (s : S)
      → Grows exists s (for_source src (λ v t. create_snapshot exec (clone_snapshot vol v) t) s).1
  for_source-Grows vol none s other = λ there. there
  for_source-Grows vol (some src_vol) s other =
      create_snapshot-Grows (clone_snapshot vol src_vol) s other

  -- `CreateClone` between the snapshot and the new UUID
  clone-exists :
      (vol : ZfsVolume) (s : S) (other : Str)
      → let after = clone_dataset exec vol s in
        exists after.1 other ≡ (succeeded after && volume_path vol == other || exists s other)
  unfolding clone_dataset
  clone-exists vol s other = made-exists laws (volume_path vol) _ s other (clone-Makes vol)

  source-exists :
      (vol : ZfsVolume) (src : Option Str) (s t : S)
      → let ran = for_source src (λ v u. create_snapshot exec (clone_snapshot vol v) u) s in
        succeeded ran ≡ true
        → Grows exists ran.1 t
        → exists t (volume_path vol) ≡ true
        → All (λ name. exists t name ≡ true) (clone_datasets vol src)
  source-exists vol none s t h grows there = (there, tt)
  source-exists vol (some src_vol) s t h grows there =
      let snap = clone_snapshot vol src_vol in
      let path = snapshot_path snap in
      (
        there,
        (grows path (create_snapshot-exists laws snap s path ∙ rw (h, ==-self path) refl), tt),
      )

  module _ (generate_uuid : Str → Str → S → Ran S (Unit {0}))
      (uuid_only : (fs_type device : Str) (s : S) (other : Str)
        → exists (generate_uuid fs_type device s).1 other ≡ exists s other) where
    renew_uuid-exists :
        (fs_type device : Str) (s : S) (other : Str)
        → exists (renew_uuid exec generate_uuid fs_type device s).1 other ≡ exists s other
    unfolding renew_uuid
    renew_uuid-exists fs_type device s other =
        elim (Bool-cases (fs_type == codes "xfs" || fs_type == codes "btrfs")) [
          | inl h ↦ rw h (uuid_only fs_type device s other)
          | inr h ↦ rw h refl
        ]

    abbrev cloned : ZfsVolume → Unit {0} → S → Ran S (Unit {0})
    cloned vol _ t = clone_dataset exec vol t

    abbrev renewed : ZfsVolume → Unit {0} → S → Ran S (Unit {0})
    renewed vol _ u =
        renew_uuid exec generate_uuid vol.spec.fs_type (codes "/dev/zvol/" ++ volume_path vol) u

    renewed-exists :
        (vol : ZfsVolume) (s : S) (other : Str) → exists (renewed vol tt s).1 other ≡ exists s other
    renewed-exists vol s other =
        renew_uuid-exists vol.spec.fs_type (codes "/dev/zvol/" ++ volume_path vol) s other

    -- `CreateClone` removes nothing, whether it succeeds or not.
    pub create_clone-Grows :
        (vol : ZfsVolume) (s : S) → Grows exists s (create_clone exec generate_uuid vol s).1
    unfolding create_clone create_clone_snapshot
    create_clone-Grows vol s =
        let first = create_clone_snapshot exec vol s in
        Grows-then exists s (first >> cloned vol) (renewed vol)
          (Grows-then exists s first (cloned vol) (for_source-Grows vol (source_volume vol) s)
            (λ _ t other. kept _ _ _ (clone-exists vol t other)))
          (λ _ t other there. renewed-exists vol t other ∙ there)

    -- the state before the new UUID
    Cloned : ZfsVolume → S → S → Type 0
    Cloned vol s t =
        let first = create_clone_snapshot exec vol s in
        (succeeded first ≡ true) × (exists t (volume_path vol) ≡ true) × Grows exists first.1 t

    cloned-Cloned :
        (vol : ZfsVolume) (s : S)
        → let both = create_clone_snapshot exec vol s >> cloned vol in
          succeeded both ≡ true → Cloned vol s both.1
    unfolding Cloned
    cloned-Cloned vol s h =
        let first = create_clone_snapshot exec vol s in
        let path = volume_path vol in
        succeeded-then (Cloned vol s) first (cloned vol) h λ once _ twice. (
          once,
          clone-exists vol first.1 path ∙ rw (twice, ==-self path) refl,
          λ other. kept _ _ _ (clone-exists vol first.1 other),
        )

    -- Where `CreateClone` succeeds, the clone is there, and so is the snapshot of its source volume
    -- if the volume names one, whether this run made them or an earlier one.
    pub create_clone-exists :
        (vol : ZfsVolume) (s : S)
        → succeeded (create_clone exec generate_uuid vol s) ≡ true
        → All
            (λ name. exists (create_clone exec generate_uuid vol s).1 name ≡ true)
            (clone_datasets vol (source_volume vol))
    unfolding create_clone create_clone_snapshot Cloned
    create_clone-exists vol s h =
        let src = source_volume vol in
        let both = create_clone_snapshot exec vol s >> cloned vol in
        let (done_snapshot, there, grows) =
          succeeded-then (λ _. Cloned vol s both.1) both (renewed vol) h
            (λ ok_both _ _. cloned-Cloned vol s ok_both) in
        let goal : S → Type 0 = λ t. All (λ name. exists t name ≡ true) (clone_datasets vol src) in
        succeeded-then goal both (renewed vol) h λ _ _ _.
          source-exists vol src s _ done_snapshot
            (λ other before. renewed-exists vol both.1 other ∙ grows other before)
            (renewed-exists vol both.1 (volume_path vol) ∙ there)
