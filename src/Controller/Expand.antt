-- ===== src/Controller/Expand.antt =====
-- `ControllerExpandVolume`, with `ResizeVolume` of pkg/zfs/volume.go, `ValidateVolumeCapabilities`,
-- and the calls that the controller does not offer.
pub mod Grown
use zfs_localpv.Prelude.{
  ℕ, Str, codes, List, [], ◌∷◌, Bool, true, false, ◌&&◌, if◌then◌else◌, is_empty, to_lower, Option,
  none, some, nat_eq, any, map,
}
use zfs_localpv.Prelude.Int.{ℤ, leb_ℤ}
use zfs_localpv.Prelude.Decimal.{parse_int, format_int}
use zfs_localpv.Api.{
  ZfsVolume, Result, ok, err, status, internal, invalid_argument, not_found, unimplemented,
}
use zfs_localpv.Zfs.Host.{Ran, ◌>>◌}
use zfs_localpv.Controller.Capacity.{get_rounded_capacity}
use zfs_localpv.Controller.Server.{Cluster, or_status}
use zfs_localpv.Controller.Create.{bytes_or_zero}

-- `ControllerExpandVolumeResponse`
pub record ExpandResponse : Type 0 where
  pub capacity_bytes : ℤ
  pub node_expansion_required : Bool

-- the object that `ResizeVolume` writes
unfoldable pub resized_volume : ZfsVolume → ℤ → ZfsVolume
resized_volume vol new_size = record vol {
  spec = record vol.spec { capacity = format_int new_size };
}

-- the access modes of CSI, of which the driver names one
pub data AccessMode : Type 0 where
  single_node_writer : AccessMode
  other_mode : ℕ → AccessMode

-- `IsSupportedVolumeCapabilityAccessMode`, and `hasSupport` of `isValidVolumeCapabilities`
unfoldable pub is_supported_access_mode : AccessMode → Bool
is_supported_access_mode single_node_writer = true
is_supported_access_mode (other_mode n) = false

-- `isValidVolumeCapabilities`: the loop, on `foundAll`
unfoldable pub valid_loop : Bool → List AccessMode → Bool
unfolding is_supported_access_mode
valid_loop found_all [] = found_all
valid_loop found_all (cap ∷ caps) =
    valid_loop (if is_supported_access_mode cap then found_all else false) caps

unfoldable pub is_valid_volume_capabilities : List AccessMode → Bool
unfolding valid_loop
is_valid_volume_capabilities vol_caps = valid_loop true vol_caps

abbrev pub size_of : {S : Type 0} → Option ℤ → S → Ran S ℤ
size_of none s = (err (status internal), s)
size_of (some size) s = (ok size, s)

-- `ListSnapshots`, `ListVolumes`, `ControllerPublishVolume`, `ControllerUnpublishVolume`,
-- `ControllerGetVolume` and `ControllerModifyVolume`
unfoldable pub not_offered : {S A : Type 0} → S → Ran S A
not_offered s = (err (status unimplemented), s)

module _ {S : Type 0} (api : Cluster S) where
  -- `ResizeVolume`
  unfoldable pub resize_volume : ZfsVolume → ℤ → S → Ran S (Unit {0})
  resize_volume vol new_size s = api.write_volume (resized_volume vol new_size) s

  -- `ControllerExpandVolume`, where the volume is there and its size is read
  abbrev pub expand_found : ℤ → ZfsVolume → ℤ → S → Ran S ExpandResponse
  expand_found updated_size vol volsize s =
      if leb_ℤ updated_size volsize
      then (ok (record { capacity_bytes = volsize; node_expansion_required = false }), s)
      else or_status internal (resize_volume vol updated_size s) >> λ _ t.
          (ok (record { capacity_bytes = updated_size; node_expansion_required = true }), t)

  -- `ControllerExpandVolume`
  unfoldable pub controller_expand_volume : Str → Option ℤ → S → Ran S ExpandResponse
  unfolding resize_volume
  controller_expand_volume volume_id required_bytes s =
      if is_empty (to_lower volume_id)
      then (err (status invalid_argument), s)
      else or_status internal (api.read_volume (to_lower volume_id) s) >> λ vol t.
          size_of (parse_int vol.spec.capacity) t
          >> expand_found (get_rounded_capacity (bytes_or_zero required_bytes)) vol

  abbrev pub confirmed : List AccessMode → Option (List AccessMode)
  confirmed vol_caps = if is_valid_volume_capabilities vol_caps then some vol_caps else none

  abbrev pub if_listed : List AccessMode → S → Ran S (Unit {0})
  if_listed [] s = (err (status invalid_argument), s)
  if_listed (cap ∷ caps) s = (ok tt, s)

  -- `ValidateVolumeCapabilities`
  unfoldable pub validate_volume_capabilities :
      Str → List AccessMode → S → Ran S (Option (List AccessMode))
  unfolding is_valid_volume_capabilities
  validate_volume_capabilities volume_id vol_caps s =
      if is_empty (to_lower volume_id)
      then (err (status invalid_argument), s)
      else if_listed vol_caps s >> λ _ t.
          or_status not_found (api.read_volume (to_lower volume_id) t) >> λ vol u.
          (ok (confirmed vol_caps), u)
