-- ===== src/Controller/Request/Built.antt =====
-- The volume objects that `CreateVolume` builds.
use zfs_localpv.Prelude.{
  Str, codes, ◌==◌, List, [], ◌∷◌, ◌≡◌, refl, sym, ap, ◌∙◌, Bool, true, false, ◌||◌, not, is_empty,
  Dict, to_lower,
}
use zfs_localpv.Prelude.Decimal.{format_int, format_int-is_empty}
use zfs_localpv.Api.{ZfsVolume, Result, ok, err}
use zfs_localpv.Zfs.UserProperty.{validate, validate_loop}
use zfs_localpv.Builder.Volume
use zfs_localpv.Builder.Volume.{VolumeBuilder}
use zfs_localpv.Builder.Valid.{IsSound, volume-IsSound, built-volume}
use zfs_localpv.Controller.Delete.{Rpc, validate_request, create_delete_volume}
use zfs_localpv.Controller.Request.{
  Wanted, VolumeRequest, named_builder, volume_object, placed_object, clone_object,
  validate_volume_create_req, required,
}

with_name-name :
    (name : Str)
    → is_empty name ≡ false
    → (Volume.with_name name Volume.new_builder).object.name ≡ name
unfolding Volume.with_name
with_name-name [] full = cc
with_name-name (c ∷ name) full = refl

with_name-IsSound :
    (name : Str) → let b = Volume.with_name name Volume.new_builder in IsSound b.errs b.object.spec
unfolding Volume.with_name Volume.new_builder validate validate_loop
with_name-IsSound [] none_failed = refl
with_name-IsSound (c ∷ name) none_failed = refl

-- The name and the reserved user properties of a new volume.
named_builder-IsSound :
    (wanted : Wanted) → IsSound (named_builder wanted).errs (named_builder wanted).object.spec
unfolding named_builder Volume.with_pvc_name Volume.with_pvc_namespace Volume.with_pv_name ◌==◌
named_builder-IsSound wanted =
    let named = Volume.with_name wanted.name Volume.new_builder in
    let second = Volume.with_pvc_name wanted.pvc_name named in
    let third = Volume.with_pvc_namespace wanted.pvc_namespace second in
    volume-IsSound (codes "openebs.io:pv-name") wanted.pv_name third refl (
      volume-IsSound (codes "openebs.io:pvc-namespace") wanted.pvc_namespace second refl (
        volume-IsSound (codes "openebs.io:pvc-name") wanted.pvc_name named refl
          (with_name-IsSound wanted.name)))

named_builder-name :
    (wanted : Wanted)
    → is_empty wanted.name ≡ false
    → (named_builder wanted).object.name ≡ wanted.name
unfolding named_builder Volume.with_pvc_name Volume.with_pvc_namespace Volume.with_pv_name
    Volume.with_reserved_user_prop
named_builder-name wanted full = with_name-name wanted.name full

-- A capacity that is not empty is set, and nothing else.
with_capacity-sets :
    (capacity : Str) (b : VolumeBuilder)
    → is_empty capacity ≡ false
    → let after = Volume.with_capacity capacity b in
      (after.object.spec.capacity ≡ capacity)
      × (after.object.name ≡ b.object.name)
      × (IsSound b.errs b.object.spec → IsSound after.errs after.object.spec)
unfolding Volume.with_capacity validate
with_capacity-sets [] b full = cc
with_capacity-sets (c ∷ capacity) b full = (refl, refl, λ sound. sound)

-- The object of a new volume has the name and the capacity that are asked for, and its user
-- properties pass `Validate`.
pub volume_object-built :
    (wanted : Wanted) (vol : ZfsVolume)
    → is_empty wanted.name ≡ false
    → volume_object wanted ≡ ok vol
    → (validate vol.spec ≡ ok tt)
      × (vol.name ≡ wanted.name)
      × (vol.spec.capacity ≡ format_int wanted.size)
unfolding volume_object Volume.with_record_size Volume.with_vol_block_size Volume.with_dedup
    Volume.with_encryption Volume.with_key_format Volume.with_key_location Volume.with_thin_prov
    Volume.with_volume_type Volume.with_volume_status Volume.with_fs_type Volume.with_quota_type
    Volume.with_shared Volume.with_a_time Volume.with_log_bias Volume.with_compression validate
volume_object-built wanted vol full h =
    let (capacity, name, sound) =
      with_capacity-sets (format_int wanted.size) (named_builder wanted)
        (format_int-is_empty wanted.size) in
    let (valid, same) = built-volume _ vol h (sound (named_builder-IsSound wanted)) in
    (
      valid,
      ap (λ v. v.name) (sym same) ∙ name ∙ named_builder-name wanted full,
      ap (λ v. v.spec.capacity) (sym same) ∙ capacity,
    )

-- So do those of a clone, which has the name that is asked for.
pub clone_object-built :
    (wanted : Wanted) (labels : Dict Str) (vol : ZfsVolume)
    → is_empty wanted.name ≡ false
    → clone_object wanted labels ≡ ok vol
    → (validate vol.spec ≡ ok tt) × (vol.name ≡ wanted.name)
unfolding clone_object Volume.with_volume_status Volume.with_labels validate
clone_object-built wanted labels vol full h =
    let (valid, same) = built-volume _ vol h (named_builder-IsSound wanted) in
    (valid, ap (λ v. v.name) (sym same) ∙ named_builder-name wanted full)

-- On a node, only the node, the pool and the state change.
pub placed_object-built :
    (vol placed : ZfsVolume) (nodeid pool : Str)
    → placed_object vol nodeid pool ≡ ok placed
    → (placed.name ≡ vol.name) × (placed.spec.capacity ≡ vol.spec.capacity)
unfolding placed_object Volume.build_from Volume.with_owner_node_id Volume.with_pool_name
    Volume.with_volume_status Volume.build
placed_object-built vol placed nodeid [] h = cc
placed_object-built vol placed nodeid (c ∷ pool) h =
    (ap (λ o. name_of o) (sym h), ap (λ o. capacity_of o) (sym h))
  where
    name_of : Result ZfsVolume → Str
    name_of (ok v) = v.name
    name_of (err e) = []

    capacity_of : Result ZfsVolume → Str
    capacity_of (ok v) = v.spec.capacity
    capacity_of (err e) = []

to_lower-is_empty : (s : Str) → is_empty s ≡ false → is_empty (to_lower s) ≡ false
unfolding to_lower
to_lower-is_empty [] full = cc
to_lower-is_empty (c ∷ s) full = refl

-- A request that is accepted has a name.
pub validate_volume_create_req-name :
    (capabilities : List Rpc) (req : VolumeRequest)
    → validate_volume_create_req capabilities req ≡ ok tt
    → is_empty (to_lower req.name) ≡ false
unfolding validate_volume_create_req
validate_volume_create_req-name capabilities req h =
    to_lower-is_empty req.name
      (go (validate_request capabilities create_delete_volume) (is_empty req.name) refl h)
  where
    go :
        (checked : Result (Unit {0})) (nameless : Bool)
        → is_empty req.name ≡ nameless
        → required checked (nameless || not req.has_capabilities) ≡ ok tt
        → is_empty req.name ≡ false
    go (err e) nameless eq h = cc
    go (ok _) true eq h = cc
    go (ok _) false eq h = eq
