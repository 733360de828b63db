-- ===== src/Zfs/Resize.antt =====
-- pkg/zfs/zfs_util.go: `ResizeZFSVolume` and the reading of a property.
use zfs_localpv.Prelude.{Str, codes, ◌==◌, [], ◌∷◌, ◌≡◌, refl, Bool, true, false, if◌then◌else◌, ap}
use zfs_localpv.Api.{ZfsVolume, Result, ok, err, Error, panicked}
use zfs_localpv.Zfs.Args.{
  volume_path, is_dataset, quota_property, reservation_property_name, build_volume_resize_args,
  assign,
}
use zfs_localpv.Zfs.Host.{Ran, ◌>>◌, Exec, zfs}

-- `out[:len(out)-1]`, which panics on an empty output
unfoldable pub without_last : Str → Result Str
without_last [] = err panicked
without_last (c ∷ []) = ok []
without_last (c ∷ d ∷ out) = elim (without_last (d ∷ out)) [
  | ok rest ↦ ok (c ∷ rest)
  | err e ↦ err e
]

-- the volume with another capacity, as `revertedVol`
abbrev pub with_capacity : ZfsVolume → Str → ZfsVolume
with_capacity vol capacity = record vol { spec = record vol.spec { capacity = capacity } }

build_volume_resize_args_thin :
    (vol : ZfsVolume) (old : Str)
    → is_dataset vol.spec ≡ true
    → (vol.spec.thin_provision == codes "no") ≡ false
    → build_volume_resize_args (with_capacity vol old)
      ≡ codes "set" ∷ assign (quota_property vol.spec.quota_type) old ∷ volume_path vol ∷ []
unfolding build_volume_resize_args is_dataset
build_volume_resize_args_thin vol old is_data thin = rw (is_data, thin) refl

module _ {S : Type 0} (exec : Exec S) where
  -- `GetVolumeProperty`
  unfoldable pub get_volume_property : ZfsVolume → Str → S → Ran S Str
  unfolding without_last
  get_volume_property vol prop s =
      exec zfs
        (codes "get" ∷ codes "-pH" ∷ codes "-o" ∷ codes "value" ∷ prop ∷ volume_path vol ∷ []) s
      >> λ out t. (without_last out, t)

  -- after the command of `ResizeZFSVolume`: where it failed, a second command reverts it, whose
  -- own failure is only logged
  abbrev pub resized_or_reverted :
      ZfsVolume → Str → (S → Ran S (Unit {0})) → Ran S Str → Ran S (Unit {0})
  resized_or_reverted vol old grow (ok _, s) = grow s
  resized_or_reverted vol old grow (err e, s) =
      (err e, (exec zfs (build_volume_resize_args (with_capacity vol old)) s).1)

  -- `ResizeZFSVolume`; `handle_resize` is `handleVolResize`, which grows the filesystem
  unfoldable pub resize_zfs_volume :
      (ZfsVolume → Str → S → Ran S (Unit {0})) → ZfsVolume → Str → Bool → S → Ran S (Unit {0})
  unfolding get_volume_property reservation_property_name
  resize_zfs_volume handle_resize vol mountpath resizefs s =
      get_volume_property vol (reservation_property_name vol.spec.quota_type) s
      >> λ old_reservation t.
          resized_or_reverted vol old_reservation
            (λ u. if resizefs then handle_resize vol mountpath u else (ok tt, u))
            (exec zfs (build_volume_resize_args vol) t)

  -- Where the resize of a dataset fails that is not thick, the revert sets its quota to the value
  -- that was read from the reservation property, not to the quota that it had; and the resize
  -- returns the error of the first command.
  pub resize_zfs_volume_reverted :
      (handle_resize : ZfsVolume → Str → S → Ran S (Unit {0})) (vol : ZfsVolume) (mountpath : Str)
      (resizefs : Bool) (s t u : S) (old : Str) (failure : Error)
      → is_dataset vol.spec ≡ true
      → (vol.spec.thin_provision == codes "no") ≡ false
      → get_volume_property vol (reservation_property_name vol.spec.quota_type) s ≡ (ok old, t)
      → exec zfs (build_volume_resize_args vol) t ≡ (err failure, u)
      → resize_zfs_volume handle_resize vol mountpath resizefs s ≡ (
        err failure,
        (exec zfs
            (codes "set" ∷ assign (quota_property vol.spec.quota_type) old ∷ volume_path vol ∷ [])
            u).1,
      )
  unfolding resize_zfs_volume
  resize_zfs_volume_reverted handle_resize vol mountpath resizefs s t u old failure is_data thin got
        failed =
      rw got (
        rw failed (
          ap (λ args. (err failure, (exec zfs args u).1))
            (build_volume_resize_args_thin vol old is_data thin)))
