-- ===== src/Controller/Snapshots/Labelled.antt =====
-- The volume of a snapshot name while `CreateSnapshot` runs.
use zfs_localpv.Prelude.{
  Str, codes, ◌==◌, ==→≡, [], ◌∷◌, ◌++◌, ◌≡◌, refl, sym, ap, ◌∙◌, subst, true, Option, none, some,
  get_or, lookup, ℕ, zero, suc,
}
use zfs_localpv.Prelude.Int.{ℤ}
use zfs_localpv.Api.{
  ZfsVolume, ZfsSnapshot, ok, err, status, object_not_found, plain, panicked, still_waiting,
}
use zfs_localpv.Zfs.Host.{Ran, succeeded}
use zfs_localpv.Controller.Server.{Cluster, ClusterLaws, Got, volume_key, Same}
use zfs_localpv.Controller.Cases.{if-cases, Wrote-ok}
use zfs_localpv.Controller.Snapshots.{
  Helpers, SnapshotResponse, snapshot_response, sized_response, is_of_volume, verified,
  pending_snapshot, if_there, polled, wait_for_ready_snapshot, wait_if_asked,
  get_zfs_snapshot_capacity,
}

module _ {S : Type 0} (snapshots : S → Str → Option ZfsSnapshot) (volume name : Str) where
  -- A snapshot object of the name, if there is one, is of the volume.
  abbrev pub Labelled : S → Type 0
  Labelled s =
      (snap : ZfsSnapshot)
      → snapshots s name ≡ some snap
      → get_or volume_key snap.labels [] ≡ volume

  -- An answer is about the snapshot object that is there.
  abbrev pub IsAbout : SnapshotResponse → S → Type 0
  IsAbout resp s =
      (snap : ZfsSnapshot) × (snapshots s name ≡ some snap)
      × (get_or volume_key snap.labels [] ≡ volume)
      × (resp.snapshot_id ≡ volume ++ (codes "@" ++ name))
      × (resp.ready ≡ (snap.state == codes "Ready"))

  abbrev pub Answered : Ran S SnapshotResponse → Type 0
  Answered ran = (resp : SnapshotResponse) → ran.0 ≡ ok resp → IsAbout resp ran.1

  pub response-Answered :
      (snap : ZfsSnapshot) (s : S)
      → snapshots s name ≡ some snap
      → get_or volume_key snap.labels [] ≡ volume
      → Answered (snapshot_response volume name snap s)
  response-Answered snap s present label resp = go (get_zfs_snapshot_capacity snap)
    where
      go : (size : Option ℤ) → sized_response volume name snap size ≡ ok resp → IsAbout resp s
      go none h = cc
      go (some size) h = (snap, present, label, cc, cc)

  pub verified-Labelled :
      (ran : Ran S ZfsSnapshot) (s : S)
      → Got snapshots name s ran.0
      → Same snapshots s ran.1
      → (verified volume ran).0 ≡ ok tt
      → Labelled (verified volume ran).1
  verified-Labelled (ok snap, t) s got same =
      let P : Ran S (Unit {0}) → Type 0 = λ r. r.0 ≡ ok tt → Labelled r.1 in
      if-cases P (is_of_volume volume snap) _ _
        (λ mine _ other present.
          let there : some other ≡ some snap = sym present ∙ same name ∙ got in
          let one : other ≡ snap = cc in rw one (==→≡ _ volume mine))
        (λ _ h. cc)
  verified-Labelled (err object_not_found, t) s got same = λ _ other present.
      absurd (let no : none ≡ some other = sym (got refl) ∙ sym (same name) ∙ present in cc)
  verified-Labelled (err (status c), t) s got same = λ h. cc
  verified-Labelled (err plain, t) s got same = λ h. cc
  verified-Labelled (err panicked, t) s got same = λ h. cc
  verified-Labelled (err still_waiting, t) s got same = λ h. cc

  polled-Labelled :
      (ran : Ran S ZfsSnapshot) (again : S → Ran S (Unit {0}))
      → Labelled ran.1
      → ((t : S) → Labelled t → Labelled (again t).1)
      → Labelled (polled ran again).1
  polled-Labelled (err e, t) again labelled next = labelled
  polled-Labelled (ok snap, t) again labelled next =
      let P : Ran S (Unit {0}) → Type 0 = λ r. Labelled r.1 in
      if-cases P (snap.state == codes "Ready") _ _ (λ _. labelled)
        (λ _. if-cases P (snap.state == codes "Failed") _ _ (λ _. labelled) (λ _. next t labelled))

pub if_there-cases :
    {S A : Type 0} (P : Ran S A → Type 0) (ran : Ran S ZfsSnapshot)
    (found : ZfsSnapshot → S → Ran S A) (other : S → Ran S A)
    → ((snap : ZfsSnapshot) → ran.0 ≡ ok snap → P (found snap ran.1))
    → P (other ran.1)
    → P (if_there ran found other)
if_there-cases P (ok snap, s) found other there missing = there snap refl
if_there-cases P (err e, s) found other there missing = missing

module _ {S : Type 0} {api : Cluster S} {volumes : S → Str → Option ZfsVolume}
    {snapshots : S → Str → Option ZfsSnapshot} (laws : ClusterLaws api volumes snapshots)
    (helpers : Helpers) where
  open laws use {
    volume_name, read_volume_keeps, read_volume_got, read_snapshot_keeps, read_snapshot_got,
    add_snapshot_wrote, sleep_snapshot,
  }

  pub Labelled-Same :
      (volume name : Str) (s t : S)
      → Same snapshots s t
      → Labelled snapshots volume name s
      → Labelled snapshots volume name t
  Labelled-Same volume name s t same labelled snap present =
      labelled snap (sym (same name) ∙ present)

  wait-Labelled :
      (volume name : Str) (seconds : ℕ) (s : S)
      → Labelled snapshots volume name s
      → Labelled snapshots volume name (wait_for_ready_snapshot api helpers seconds name s).1
  unfolding wait_for_ready_snapshot
  wait-Labelled volume name zero s labelled =
      polled-Labelled snapshots volume name (api.read_snapshot name s) _
        (Labelled-Same volume name s _ (read_snapshot_keeps name s).1 labelled) (λ t kept. kept)
  wait-Labelled volume name (suc seconds) s labelled =
      polled-Labelled snapshots volume name (api.read_snapshot name s) _
        (Labelled-Same volume name s _ (read_snapshot_keeps name s).1 labelled)
        (λ t kept. wait-Labelled volume name seconds (api.sleep t) λ snap present.
          let (before, there, same) = sleep_snapshot t name snap present in
          same ∙ kept before there)

  pub wait_if_asked-Labelled :
      (volume name : Str) (seconds : ℕ) (asked : Option Str) (s : S)
      → Labelled snapshots volume name s
      → Labelled snapshots volume name (wait_if_asked api helpers seconds name asked s).1
  wait_if_asked-Labelled volume name seconds none s labelled = labelled
  wait_if_asked-Labelled volume name seconds (some _) s labelled =
      wait-Labelled volume name seconds s labelled

  -- An object of the volume was added.
  pub added-Labelled :
      (volume name : Str) (vol : ZfsVolume) (snap : ZfsSnapshot) (s : S)
      → vol.name ≡ volume
      → snap.name ≡ name
      → snap.labels ≡ (volume_key, vol.name) ∷ []
      → succeeded (api.add_snapshot (pending_snapshot vol snap) s) ≡ true
      → Labelled snapshots volume name (api.add_snapshot (pending_snapshot vol snap) s).1
  unfolding pending_snapshot get_or lookup ◌==◌
  added-Labelled volume name vol snap s vol_name snap_name labels good other present =
      let object = pending_snapshot vol snap in
      let ran = api.add_snapshot object s in
      let stored =
        Wrote-ok snapshots object.name (some object) s ran (add_snapshot_wrote object s) good in
      let there : some other ≡ some object =
        sym present ∙ ap (snapshots ran.1) (sym snap_name) ∙ stored in
      let one : other ≡ object = cc in
      rw one (ap (λ entries. get_or volume_key entries []) labels ∙ vol_name)

  -- A read that succeeds gives the object that is there.
  pub read-present :
      (volume name : Str) (s : S) (snap : ZfsSnapshot)
      → Labelled snapshots volume name s
      → (api.read_snapshot name s).0 ≡ ok snap
      → (snapshots (api.read_snapshot name s).1 name ≡ some snap)
        × (get_or volume_key snap.labels [] ≡ volume)
  read-present volume name s snap labelled eq =
      let there = subst (Got snapshots name s) eq (read_snapshot_got name s) in
      ((read_snapshot_keeps name s).1 name ∙ there, labelled snap there)
