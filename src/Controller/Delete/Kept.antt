-- ===== src/Controller/Delete/Kept.antt =====
-- What becomes of a volume whose deletion is requested.
use zfs_localpv.Prelude.{
  Str, codes, ◌==◌, List, [], ◌∷◌, ◌≡◌, refl, sym, ap, ◌∙◌, subst, true, false, not, Option, none,
  some, ◌⊎◌, inl, inr, Bool-cases, Any, get_or, get_or-insert, to_lower,
}
use zfs_localpv.Api.{ZfsVolume, ZfsSnapshot, ok, not_found}
use zfs_localpv.Zfs.Host.{Ran, succeeded}
use zfs_localpv.Mgmt.Server.{no_finalizers}
use zfs_localpv.Builder.Volume.{mark_for_deletion_annotation, annotated}
use zfs_localpv.Controller.Server.{
  Cluster, ClusterLaws, Got, volume_key, removed_volume, written_volume, check,
}
use zfs_localpv.Controller.Cases.{
  if-cases, then-cases, or_status-cases, unless_missing-cases, wrapped-cases, succeeded-ok,
  Wrote-ok,
}
use zfs_localpv.Controller.Delete.{
  Rpc, is_marked, mark_for_deletion, delete_or_mark, delete_found, validate_delete_volume_req,
  controller_delete_volume,
}

-- as it was, or with the annotation that asks for its deletion
abbrev pub Kept : ZfsVolume → Option ZfsVolume → Type 0
Kept vol after = (after ≡ some vol) ⊎ (after ≡ some (annotated vol))

-- gone, being deleted, or with the annotation
abbrev pub Handled : Option ZfsVolume → Type 0
Handled none = Unit
Handled (some vol) = (vol.deleting ≡ true) ⊎ (is_marked vol ≡ true)

annotated-is_marked : (vol : ZfsVolume) → is_marked (annotated vol) ≡ true
unfolding annotated ◌==◌
annotated-is_marked vol =
    ap (λ value. value == codes "true")
      (get_or-insert mark_for_deletion_annotation mark_for_deletion_annotation (codes "true")
        vol.annotations [])

removed_volume-Handled : (before : Option ZfsVolume) → Handled (removed_volume before)
removed_volume-Handled none = tt
removed_volume-Handled (some vol) = elim (Bool-cases (no_finalizers vol.finalizers)) [
  | inl h ↦ rw h tt
  | inr h ↦ rw h (inl refl)
]

written-annotated :
    (vol : ZfsVolume) → vol.deleting ≡ false → written_volume (annotated vol) ≡ some (annotated vol)
unfolding annotated
written-annotated vol alive = rw alive

module _ {S : Type 0} {api : Cluster S} {volumes : S → Str → Option ZfsVolume}
    {snapshots : S → Str → Option ZfsSnapshot} (laws : ClusterLaws api volumes snapshots) where
  open laws use {
    volume_name, read_volume_keeps, read_volume_got, snapshots_of_keeps, snapshots_of_all,
    write_volume_wrote, remove_volume_wrote,
  }

  read_same :
      (name : Str) (s : S) (vol found : ZfsVolume)
      → volumes s name ≡ some vol
      → (api.read_volume name s).0 ≡ ok found
      → found ≡ vol
  read_same name s vol found present eq =
      let got : volumes s name ≡ some found =
        subst (Got volumes name s) eq (read_volume_got name s) in
      cc

  -- `MarkForDeletion` writes the annotation and changes nothing else of the volume.
  Marked : Str → ZfsVolume → Ran S (Unit {0}) → Type 0
  Marked name vol ran =
      (volumes ran.1 name ≡ some (annotated vol))
      ⊎ ((succeeded ran ≡ false) × (volumes ran.1 name ≡ some vol))

  annotate-Marked :
      (name : Str) (vol : ZfsVolume) (s : S)
      → vol.name ≡ name
      → volumes s name ≡ some vol
      → vol.deleting ≡ false
      → Marked name vol (api.write_volume (annotated vol) s)
  unfolding Marked annotated
  annotate-Marked name vol s named present alive = elim (write_volume_wrote (annotated vol) s).1 [
    | inl h ↦ inl (ap (volumes _) (sym named) ∙ h ∙ written-annotated vol alive)
    | inr (bad, h) ↦ inr (bad, ap (volumes _) (sym named) ∙ h ∙ ap (volumes s) named ∙ present)
  ]

  mark_for_deletion-Marked :
      (name : Str) (vol : ZfsVolume) (s : S)
      → volumes s name ≡ some vol
      → vol.deleting ≡ false
      → Marked name vol (mark_for_deletion api name s)
  unfolding mark_for_deletion Marked
  mark_for_deletion-Marked name vol s present alive =
      let ran = api.read_volume name s in
      let still : volumes ran.1 name ≡ some vol = (read_volume_keeps name s).0 name ∙ present in
      then-cases (Marked name vol) ran _
        (λ found eq.
          rw (read_same name s vol found present eq)
            (annotate-Marked name vol ran.1 (volume_name s name vol present) still alive))
        (λ e. inr (refl, still))

  -- There is a snapshot object of the volume.
  abbrev pub HasSnapshot : Str → S → Type 0
  HasSnapshot volume s =
      (name : Str) × (snap : ZfsSnapshot) × (snapshots s name ≡ some snap)
      × (get_or volume_key snap.labels [] ≡ volume)

  delete_or_mark-Kept :
      (volume name : Str) (vol : ZfsVolume) (snaps : List ZfsSnapshot) (s : S)
      → Any (λ item. item.name ≡ name) snaps
      → volumes s volume ≡ some vol
      → vol.deleting ≡ false
      → Kept vol (volumes (delete_or_mark api volume snaps s).1 volume)
  unfolding Marked
  delete_or_mark-Kept volume name vol [] s listed present alive = absurd listed
  delete_or_mark-Kept volume name vol (snap ∷ snaps) s listed present alive =
      let kept : Kept vol (volumes (mark_for_deletion api volume s).1 volume) =
        elim (mark_for_deletion-Marked volume vol s present alive) [
          | inl h ↦ inr h
          | inr (_, h) ↦ inl h
        ] in
      wrapped-cases (λ ran. Kept vol (volumes ran.1 volume)) (mark_for_deletion api volume s)
        (λ _ _. kept) (λ _ _. kept)

  delete_found-Kept :
      (volume : Str) (vol : ZfsVolume) (s : S)
      → volumes s volume ≡ some vol
      → HasSnapshot volume s
      → Kept vol (volumes (delete_found api volume vol s).1 volume)
  delete_found-Kept volume vol s present (name, snap, stored, label) =
      let P : Ran S (Unit {0}) → Type 0 = λ r. Kept vol (volumes r.1 volume) in
      let ran = api.snapshots_of volume s in
      let still = (snapshots_of_keeps volume s).0 volume ∙ present in
      if-cases P vol.deleting _ _ (λ _. inl present)
        (λ alive.
          if-cases P (not (vol.state == codes "Ready")) _ _ (λ _. inl present)
            (λ _.
              or_status-cases P not_found ran _
                (λ snaps eq.
                  delete_or_mark-Kept volume name vol snaps ran.1
                    (snapshots_of_all volume s snaps name snap eq stored label) still alive)
                (λ e. inl still)))

  -- `DeleteVolume` never deletes a volume that has a snapshot: whether it succeeds or fails, the
  -- volume is as it was or has got the annotation, and is otherwise the same.
  pub controller_delete_volume-Kept :
      (capabilities : List Rpc) (volume_id : Str) (s : S) (vol : ZfsVolume)
      → volumes s (to_lower volume_id) ≡ some vol
      → HasSnapshot (to_lower volume_id) s
      → Kept vol
          (volumes (controller_delete_volume api capabilities volume_id s).1 (to_lower volume_id))
  unfolding controller_delete_volume
  controller_delete_volume-Kept capabilities volume_id s vol present (name, snap, stored, label) =
      let volume = to_lower volume_id in
      let ran = api.read_volume volume s in
      let still : volumes ran.1 volume ≡ some vol =
        (read_volume_keeps volume s).0 volume ∙ present in
      let P : Ran S (Unit {0}) → Type 0 = λ r. Kept vol (volumes r.1 volume) in
      then-cases P (check (validate_delete_volume_req capabilities volume_id) s) _
        (λ _ _.
          unless_missing-cases P ran _
            (λ found eq. rw (read_same volume s vol found present eq) (
              delete_found-Kept volume vol ran.1 still
                (name, snap, (read_volume_keeps volume s).1 name ∙ stored, label)))
            (λ _. inl still) (λ _. inl still))
        (λ e. inl present)

  delete_or_mark-Handled :
      (volume : Str) (vol : ZfsVolume) (snaps : List ZfsSnapshot) (s : S)
      → volumes s volume ≡ some vol
      → vol.deleting ≡ false
      → succeeded (delete_or_mark api volume snaps s) ≡ true
      → Handled (volumes (delete_or_mark api volume snaps s).1 volume)
  unfolding Marked
  delete_or_mark-Handled volume vol [] s present alive =
      let ran = api.remove_volume volume s in
      wrapped-cases (λ r. succeeded r ≡ true → Handled (volumes r.1 volume)) ran
        (λ a eq _.
          rw
            (Wrote-ok volumes volume _ s ran (remove_volume_wrote volume s) (succeeded-ok ran a eq))
            (removed_volume-Handled (volumes s volume)))
        (λ _ _ h. cc)
  delete_or_mark-Handled volume vol (snap ∷ snaps) s present alive =
      let ran = mark_for_deletion api volume s in
      wrapped-cases (λ r. succeeded r ≡ true → Handled (volumes r.1 volume)) ran
        (λ a eq _. elim (mark_for_deletion-Marked volume vol s present alive) [
          | inl h ↦ rw h (inr (annotated-is_marked vol))
          | inr (bad, _) ↦ absurd (let good = succeeded-ok ran a eq in cc)
        ])
        (λ _ _ h. cc)

  delete_found-Handled :
      (volume : Str) (vol : ZfsVolume) (s : S)
      → volumes s volume ≡ some vol
      → succeeded (delete_found api volume vol s) ≡ true
      → Handled (volumes (delete_found api volume vol s).1 volume)
  delete_found-Handled volume vol s present =
      let P : Ran S (Unit {0}) → Type 0 = λ r. succeeded r ≡ true → Handled (volumes r.1 volume) in
      let ran = api.snapshots_of volume s in
      let still = (snapshots_of_keeps volume s).0 volume ∙ present in
      if-cases P vol.deleting _ _ (λ h _. rw present (inl h))
        (λ alive.
          if-cases P (not (vol.state == codes "Ready")) _ _ (λ _ bad. cc)
            (λ _.
              or_status-cases P not_found ran _
                (λ snaps _. delete_or_mark-Handled volume vol snaps ran.1 still alive)
                (λ e bad. cc)))

  -- Where `DeleteVolume` answers with success, the volume is gone, or is being deleted, or has the
  -- annotation that has it deleted with its last snapshot.
  pub controller_delete_volume-Handled :
      (capabilities : List Rpc) (volume_id : Str) (s : S)
      → succeeded (controller_delete_volume api capabilities volume_id s) ≡ true
      → Handled
          (volumes (controller_delete_volume api capabilities volume_id s).1 (to_lower volume_id))
  unfolding controller_delete_volume
  controller_delete_volume-Handled capabilities volume_id s =
      let volume = to_lower volume_id in
      let ran = api.read_volume volume s in
      let P : Ran S (Unit {0}) → Type 0 = λ r. succeeded r ≡ true → Handled (volumes r.1 volume) in
      let got = read_volume_got volume s in
      let same = (read_volume_keeps volume s).0 volume in
      then-cases P (check (validate_delete_volume_req capabilities volume_id) s) _
        (λ _ _.
          unless_missing-cases P ran _
            (λ found eq.
              delete_found-Handled volume found ran.1 (same ∙ subst (Got volumes volume s) eq got))
            (λ eq _. rw (same ∙ subst (Got volumes volume s) eq got refl) tt) (λ e bad. cc))
        (λ e bad. cc)
