-- ===== src/Zfs/Volumes/Untouched.antt =====
-- What the destroying operations leave as it is, whatever it is, because they only run commands.
use zfs_localpv.Prelude.{Str, codes, List, [], ◌∷◌, ◌≡◌, refl, ap, ◌∙◌, Option, none, some}
use zfs_localpv.Api.{ZfsVolume, ZfsSnapshot, ok, err}
use zfs_localpv.Zfs.Args.{
  volume_path, snapshot_path, build_volume_destroy_args, build_zfs_snap_destroy_args,
}
use zfs_localpv.Zfs.Host.{Ran, ◌>>◌, done, Exec, zfs}
use zfs_localpv.Zfs.Volumes.{
  if_there, logged, get_volume, destroy_snapshot, destroy_volume, destroy_clone_snapshot,
  source_volume, for_source, clone_snapshot,
}
use zfs_localpv.Zfs.Volumes.Create.{done-state}

pub logged-state : {S : Type 0} (ran : Ran S (Unit {0})) → (logged ran).1 ≡ ran.1
logged-state (r, s) = refl

-- What no command changes, destroying does not change.
then_kept :
    {S A B C : Type 0} (view : S → C) (s : S) (ran : Ran S A) (next : A → S → Ran S B)
    → view ran.1 ≡ view s
    → ((a : A) (t : S) → view t ≡ view s → view (next a t).1 ≡ view s)
    → view (ran >> next).1 ≡ view s
then_kept view s (ok a, t) next first second = second a t first
then_kept view s (err e, t) next first second = first

if_there_kept :
    {S C : Type 0} (view : S → C) (s : S) (ran : Ran S (Unit {0})) (act : S → Ran S (Unit {0}))
    → view ran.1 ≡ view s
    → ((t : S) → view t ≡ view s → view (act t).1 ≡ view s)
    → view (if_there ran act).1 ≡ view s
if_there_kept view s (ok a, t) act first second = second t first
if_there_kept view s (err e, t) act first second = first

module _ {S C : Type 0} (exec : Exec S) (view : S → C)
    (kept : (command : Str) (args : List Str) (s : S) → view (exec command args s).1 ≡ view s) where
  done-kept :
      (args : List Str) (s t : S) → view t ≡ view s → view (done (exec zfs args t)).1 ≡ view s
  done-kept args s t same = ap view (done-state (exec zfs args t)) ∙ kept zfs args t ∙ same

  get_volume-kept :
      (name : Str) (s t : S) → view t ≡ view s → view (get_volume exec name t).1 ≡ view s
  unfolding get_volume
  get_volume-kept name s t same = done-kept (codes "list" ∷ name ∷ []) s t same

  pub destroy_snapshot-kept :
      (snap : ZfsSnapshot) (s t : S)
      → view t ≡ view s
      → view (destroy_snapshot exec snap t).1 ≡ view s
  unfolding destroy_snapshot
  destroy_snapshot-kept snap s t same =
      then_kept view s (get_volume exec snap.spec.pool_name t) _
        (get_volume-kept snap.spec.pool_name s t same)
        (λ _ u here.
          if_there_kept view s (get_volume exec (snapshot_path snap) u) _
            (get_volume-kept (snapshot_path snap) s u here)
            (λ v there. done-kept (build_zfs_snap_destroy_args snap) s v there))

  for_source-kept :
      (vol : ZfsVolume) (src : Option Str) (s t : S)
      → view t ≡ view s
      → view (for_source src (λ v u. logged (destroy_snapshot exec (clone_snapshot vol v) u)) t).1
        ≡ view s
  for_source-kept vol none s t same = same
  for_source-kept vol (some src_vol) s t same =
      ap view (logged-state (destroy_snapshot exec (clone_snapshot vol src_vol) t))
      ∙ destroy_snapshot-kept (clone_snapshot vol src_vol) s t same

  -- `DestroyVolume` only runs commands.
  pub destroy_volume-kept : (vol : ZfsVolume) (s : S) → view (destroy_volume exec vol s).1 ≡ view s
  unfolding destroy_volume destroy_clone_snapshot
  destroy_volume-kept vol s =
      then_kept view s (get_volume exec vol.spec.pool_name s) _
        (get_volume-kept vol.spec.pool_name s s refl)
        (λ _ t same.
          if_there_kept view s (get_volume exec (volume_path vol) t) _
            (get_volume-kept (volume_path vol) s t same)
            (λ u here.
              then_kept view s (exec zfs (build_volume_destroy_args vol) u) _
                (kept zfs (build_volume_destroy_args vol) u ∙ here)
                (λ _ v there. for_source-kept vol (source_volume vol) s v there)))
