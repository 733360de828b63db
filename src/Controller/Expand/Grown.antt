-- ===== src/Controller/Expand/Grown.antt =====
-- What an expansion does to the capacity of a volume.
use zfs_localpv.Prelude.{
  ℕ, Str, ◌≡◌, sym, ap, ◌∙◌, subst, true, false, is_empty, to_lower, Option, some, inl, inr, arith,
}
use zfs_localpv.Prelude.Int.{ℤ, pos, negsuc, IsInt64, wrap64-IsInt64, leb_ℤ, ltb_ℤ, ◌≤ℤ◌}
use zfs_localpv.Prelude.Decimal.{parse_int, parse_int-format_int}
use zfs_localpv.Api.{ZfsVolume, ZfsSnapshot, internal}
use zfs_localpv.Zfs.Host.{Ran}
use zfs_localpv.Controller.Capacity.{get_rounded_capacity, round_up, mul64, gi, mi}
use zfs_localpv.Controller.Server.{Cluster, ClusterLaws, Got, written_volume}
use zfs_localpv.Controller.Cases.{if-cases, or_status-cases}
use zfs_localpv.Controller.Create.{bytes_or_zero}
use zfs_localpv.Controller.Expand.{
  ExpandResponse, resized_volume, resize_volume, expand_found, controller_expand_volume,
}

mul64-IsInt64 : (a : ℤ) (d : ℕ) → IsInt64 (mul64 a d)
mul64-IsInt64 (pos a) d = wrap64-IsInt64 _
mul64-IsInt64 (negsuc a) d = wrap64-IsInt64 _

get_rounded_capacity-IsInt64 : (size : ℤ) → IsInt64 (get_rounded_capacity size)
unfolding get_rounded_capacity round_up
get_rounded_capacity-IsInt64 size =
    if-cases IsInt64 (ltb_ℤ (pos gi) size) _ _ (λ _. mul64-IsInt64 _ gi) (λ _. mul64-IsInt64 _ mi)

leb_ℤ-true : (a b : ℤ) → leb_ℤ a b ≡ true → a ≤ℤ b
leb_ℤ-true a b h = ground arith

leb_ℤ-false : (a b : ℤ) → leb_ℤ a b ≡ false → b ≤ℤ a
leb_ℤ-false a b h = ground arith

le_ℤ-refl : (a : ℤ) → a ≤ℤ a
le_ℤ-refl a = omega arith

written-resized :
    (vol : ZfsVolume) (size : ℤ)
    → vol.deleting ≡ false
    → written_volume (resized_volume vol size) ≡ some (resized_volume vol size)
unfolding resized_volume
written-resized vol size alive = rw alive

-- The volume is there, and its capacity is a number that is at least `least`.
abbrev pub HasAtLeast : {S : Type 0} → (S → Str → Option ZfsVolume) → Str → ℤ → S → Type 0
HasAtLeast volumes name least s =
    (vol : ZfsVolume) × (size : ℤ) × (volumes s name ≡ some vol)
    × (parse_int vol.spec.capacity ≡ some size)
    × (least ≤ℤ size)

module _ {S : Type 0} {api : Cluster S} {volumes : S → Str → Option ZfsVolume}
    {snapshots : S → Str → Option ZfsSnapshot} (laws : ClusterLaws api volumes snapshots) where
  open laws use {volume_name, read_volume_keeps, read_volume_got, write_volume_wrote}

  resize_volume-grows :
      (name : Str) (vol : ZfsVolume) (old new : ℤ) (s : S)
      → volumes s name ≡ some vol
      → vol.deleting ≡ false
      → parse_int vol.spec.capacity ≡ some old
      → IsInt64 new
      → old ≤ℤ new
      → HasAtLeast volumes name old (resize_volume api vol new s).1
  unfolding resize_volume resized_volume
  resize_volume-grows name vol old new s there alive size fits grows =
      let named = volume_name s name vol there in
      elim (write_volume_wrote (resized_volume vol new) s).1 [
        | inl h ↦ (
          resized_volume vol new,
          new,
          ap (volumes _) (sym named) ∙ h ∙ written-resized vol new alive,
          parse_int-format_int new fits,
          grows,
        )
        | inr (_, h) ↦ (
          vol,
          old,
          ap (volumes _) (sym named) ∙ h ∙ ap (volumes s) named ∙ there,
          size,
          le_ℤ-refl old,
        )
      ]

  expand_found-grows :
      (name : Str) (vol : ZfsVolume) (old new : ℤ) (s : S)
      → volumes s name ≡ some vol
      → vol.deleting ≡ false
      → parse_int vol.spec.capacity ≡ some old
      → IsInt64 new
      → HasAtLeast volumes name old (expand_found api new vol old s).1
  expand_found-grows name vol old new s there alive size fits =
      let P : Ran S ExpandResponse → Type 0 = λ r. HasAtLeast volumes name old r.1 in
      let ran = resize_volume api vol new s in
      if-cases P (leb_ℤ new old) _ _ (λ _. (vol, old, there, size, le_ℤ-refl old))
        (λ more.
          let grown =
            resize_volume-grows name vol old new s there alive size fits
              (leb_ℤ-false new old more) in
          or_status-cases P internal ran _ (λ _ _. grown) (λ _. grown))

  -- `ControllerExpandVolume` never makes a volume smaller, whether it succeeds or fails: a volume
  -- that is not being deleted keeps a capacity that is a number, and one that is not below the one
  -- it had.
  pub controller_expand_volume-HasAtLeast :
      (volume_id : Str) (required_bytes : Option ℤ) (s : S) (vol : ZfsVolume) (old : ℤ)
      → volumes s (to_lower volume_id) ≡ some vol
      → vol.deleting ≡ false
      → parse_int vol.spec.capacity ≡ some old
      → HasAtLeast volumes
          (to_lower volume_id)
          old
          (controller_expand_volume api volume_id required_bytes s).1
  unfolding controller_expand_volume
  controller_expand_volume-HasAtLeast volume_id required_bytes s vol old there alive size =
      let name = to_lower volume_id in
      let new = get_rounded_capacity (bytes_or_zero required_bytes) in
      let P : Ran S ExpandResponse → Type 0 = λ r. HasAtLeast volumes name old r.1 in
      let ran = api.read_volume name s in
      let still : volumes ran.1 name ≡ some vol = (read_volume_keeps name s).0 name ∙ there in
      if-cases P (is_empty name) _ _ (λ _. (vol, old, there, size, le_ℤ-refl old))
        (λ _.
          or_status-cases P internal ran _
            (λ found eq.
              let got : volumes s name ≡ some found =
                subst (Got volumes name s) eq (read_volume_got name s) in
              let one : vol ≡ found = cc in
              rw (← one) (
                rw size (
                  expand_found-grows name vol old new ran.1 still alive size
                    (get_rounded_capacity-IsInt64 (bytes_or_zero required_bytes)))))
            (λ _. (vol, old, still, size, le_ℤ-refl old)))
