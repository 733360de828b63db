-- ===== src/Builder/Volume.antt =====
-- pkg/builder/volbuilder/build.go
use zfs_localpv.Prelude.{
  Str, codes, List, [], ◌∷◌, ◌++◌, false, if◌then◌else◌, is_empty, Dict, insert,
}
use zfs_localpv.Api.{VolumeInfo, ZfsVolume, Error, plain, Result, ok, err}
use zfs_localpv.Zfs.Host.{starts_with}
use zfs_localpv.Zfs.UserProperty.{validate_user_property}

-- the zero values of the structs
abbrev pub empty_info : VolumeInfo
empty_info = record {
  owner_node_id = [];
  pool_name = [];
  snap_name = [];
  capacity = [];
  record_size = [];
  vol_block_size = [];
  compression = [];
  dedup = [];
  a_time = [];
  log_bias = [];
  encryption = [];
  key_location = [];
  key_format = [];
  thin_provision = [];
  volume_type = [];
  quota_type = [];
  fs_type = [];
  shared = [];
  user_properties = [];
}

abbrev pub empty_volume : ZfsVolume
empty_volume = record {
  name = [];
  labels = [];
  annotations = [];
  finalizers = [];
  deleting = false;
  spec = empty_info;
  state = [];
}

-- `MarkForDeletionAnnotation`
abbrev pub mark_for_deletion_annotation : Str
mark_for_deletion_annotation = codes "openebs.io/marked-for-deletion"

-- the object that `UpdateZFSVolumeAnnotation` writes
unfoldable pub annotated : ZfsVolume → ZfsVolume
annotated vol = record vol {
  annotations = insert mark_for_deletion_annotation (codes "true") vol.annotations;
}

-- `Builder`
pub record VolumeBuilder : Type 0 where
  pub object : ZfsVolume
  pub errs : List Error

infixl 5 ◌|>◌
-- `b.With...(...)`
abbrev pub ◌|>◌ : {B C : Type 0} → B → (B → C) → C
b |> f = f b

unfoldable pub new_builder : VolumeBuilder
new_builder = record { object = empty_volume; errs = [] }

unfoldable pub build_from : ZfsVolume → VolumeBuilder
build_from vol = record { object = vol; errs = [] }

abbrev failed : VolumeBuilder → VolumeBuilder
failed b = record b { errs = b.errs ++ plain ∷ [] }

abbrev on_object : (ZfsVolume → ZfsVolume) → VolumeBuilder → VolumeBuilder
on_object f b = record b { object = f b.object }

abbrev on_spec : (VolumeInfo → VolumeInfo) → VolumeBuilder → VolumeBuilder
on_spec f b = on_object (λ vol. record vol { spec = f vol.spec }) b

unfoldable pub with_name : Str → VolumeBuilder → VolumeBuilder
with_name name b =
    if is_empty name then failed b else on_object (λ vol. record vol { name = name }) b

unfoldable pub with_capacity : Str → VolumeBuilder → VolumeBuilder
with_capacity capacity b =
    if is_empty capacity then failed b else on_spec (λ spec. record spec { capacity = capacity }) b

unfoldable pub with_encryption : Str → VolumeBuilder → VolumeBuilder
with_encryption encr b = on_spec (λ spec. record spec { encryption = encr }) b

unfoldable pub with_key_location : Str → VolumeBuilder → VolumeBuilder
with_key_location kl b = on_spec (λ spec. record spec { key_location = kl }) b

unfoldable pub with_key_format : Str → VolumeBuilder → VolumeBuilder
with_key_format kf b = on_spec (λ spec. record spec { key_format = kf }) b

unfoldable pub with_compression : Str → VolumeBuilder → VolumeBuilder
with_compression compression b = on_spec (λ spec. record spec { compression = compression }) b

unfoldable pub with_dedup : Str → VolumeBuilder → VolumeBuilder
with_dedup dedup b = on_spec (λ spec. record spec { dedup = dedup }) b

unfoldable pub with_a_time : Str → VolumeBuilder → VolumeBuilder
with_a_time atime b = on_spec (λ spec. record spec { a_time = atime }) b

unfoldable pub with_log_bias : Str → VolumeBuilder → VolumeBuilder
with_log_bias logbias b = on_spec (λ spec. record spec { log_bias = logbias }) b

unfoldable pub with_thin_prov : Str → VolumeBuilder → VolumeBuilder
with_thin_prov thinprov b = on_spec (λ spec. record spec { thin_provision = thinprov }) b

unfoldable pub with_owner_node_id : Str → VolumeBuilder → VolumeBuilder
with_owner_node_id nodeid b = on_spec (λ spec. record spec { owner_node_id = nodeid }) b

unfoldable pub with_record_size : Str → VolumeBuilder → VolumeBuilder
with_record_size rs b = on_spec (λ spec. record spec { record_size = rs }) b

unfoldable pub with_vol_block_size : Str → VolumeBuilder → VolumeBuilder
with_vol_block_size bs b = on_spec (λ spec. record spec { vol_block_size = bs }) b

unfoldable pub with_annotation : VolumeBuilder → VolumeBuilder
unfolding annotated
with_annotation b = on_object annotated b

unfoldable pub with_volume_type : Str → VolumeBuilder → VolumeBuilder
with_volume_type vtype b = on_spec (λ spec. record spec { volume_type = vtype }) b

unfoldable pub with_volume_status : Str → VolumeBuilder → VolumeBuilder
with_volume_status status b = on_object (λ vol. record vol { state = status }) b

unfoldable pub with_fs_type : Str → VolumeBuilder → VolumeBuilder
with_fs_type fstype b = on_spec (λ spec. record spec { fs_type = fstype }) b

unfoldable pub with_quota_type : Str → VolumeBuilder → VolumeBuilder
with_quota_type quotatype b =
    on_spec
      (λ spec. record spec { quota_type = if is_empty quotatype then codes "quota" else quotatype })
      b

unfoldable pub with_shared : Str → VolumeBuilder → VolumeBuilder
with_shared shared b = on_spec (λ spec. record spec { shared = shared }) b

unfoldable pub with_snapshot : Str → VolumeBuilder → VolumeBuilder
with_snapshot snap b = on_spec (λ spec. record spec { snap_name = snap }) b

unfoldable pub with_pool_name : Str → VolumeBuilder → VolumeBuilder
with_pool_name pool b =
    if is_empty pool then failed b else on_spec (λ spec. record spec { pool_name = pool }) b

unfoldable pub with_node_name : Str → VolumeBuilder → VolumeBuilder
with_node_name name b =
    if is_empty name then failed b else on_spec (λ spec. record spec { owner_node_id = name }) b

-- the loops over a map, in the order of one `range`
unfoldable pub merge : Dict Str → Dict Str → Dict Str
merge [] into = into
merge ((key, value) ∷ labels) into = merge labels (insert key value into)

unfoldable pub with_labels : Dict Str → VolumeBuilder → VolumeBuilder
unfolding merge
with_labels labels b = on_object (λ vol. record vol { labels = merge labels vol.labels }) b

unfoldable pub with_finalizer : List Str → VolumeBuilder → VolumeBuilder
with_finalizer finalizer b =
    on_object (λ vol. record vol { finalizers = vol.finalizers ++ finalizer }) b

abbrev set_user_prop : Str → Str → VolumeBuilder → VolumeBuilder
set_user_prop name value b =
    on_spec (λ spec. record spec { user_properties = insert name value spec.user_properties }) b

abbrev noted : Result (Unit {0}) → List Error → List Error
noted (ok _) errs = errs
noted (err e) errs = errs ++ plain ∷ []

abbrev unreserved : Result (Unit {0}) → Str → Str → VolumeBuilder → VolumeBuilder
unreserved (err e) name value b = failed b
unreserved (ok _) name value b =
    if starts_with (codes "openebs.io:") name then failed b else set_user_prop name value b

unfoldable pub with_user_properties : Dict Str → VolumeBuilder → VolumeBuilder
unfolding validate_user_property
with_user_properties [] b = b
with_user_properties ((name, value) ∷ props) b =
    with_user_properties props (unreserved (validate_user_property name value) name value b)

unfoldable pub with_reserved_user_prop : Str → Str → VolumeBuilder → VolumeBuilder
with_reserved_user_prop name value b =
    set_user_prop name value (record b { errs = noted (validate_user_property name value) b.errs })

unfoldable pub with_pvc_name : Str → VolumeBuilder → VolumeBuilder
unfolding with_reserved_user_prop
with_pvc_name pvc b = with_reserved_user_prop (codes "openebs.io:pvc-name") pvc b

unfoldable pub with_pvc_namespace : Str → VolumeBuilder → VolumeBuilder
unfolding with_reserved_user_prop
with_pvc_namespace pvc b = with_reserved_user_prop (codes "openebs.io:pvc-namespace") pvc b

unfoldable pub with_pv_name : Str → VolumeBuilder → VolumeBuilder
unfolding with_reserved_user_prop
with_pv_name pv b = with_reserved_user_prop (codes "openebs.io:pv-name") pv b

abbrev pub built : List Error → ZfsVolume → Result ZfsVolume
built [] vol = ok vol
built (_ ∷ _) vol = err plain

unfoldable pub build : VolumeBuilder → Result ZfsVolume
build b = built b.errs b.object
