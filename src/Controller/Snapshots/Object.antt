-- ===== src/Controller/Snapshots/Object.antt =====
-- The snapshot objects that `CreateSnapshot` adds.
use zfs_localpv.Prelude.{
  Str, codes, ◌==◌, [], ◌∷◌, ◌≡◌, refl, sym, ap, false, is_empty, Dict, insert,
}
use zfs_localpv.Api.{ZfsVolume, ZfsSnapshot, ok}
use zfs_localpv.Zfs.UserProperty.{validate, validate_loop}
use zfs_localpv.Builder.Volume.{merge}
use zfs_localpv.Builder.Snapshot.{
  new_builder, with_name, with_labels, with_vs_name, with_vs_namespace, with_vsc_name,
  with_reserved_user_prop,
}
use zfs_localpv.Builder.Valid.{snapshot-IsSound, built-snapshot}
use zfs_localpv.Controller.Server.{volume_key}
use zfs_localpv.Controller.Snapshots.{Helpers, snapshot_object, pending_snapshot}

-- The user properties of a new snapshot are valid, and its label names the volume.
pub snapshot_object-built :
    (helpers : Helpers) (name : Str) (parameters : Dict Str) (vol : ZfsVolume) (snap : ZfsSnapshot)
    → is_empty name ≡ false
    → snapshot_object helpers name parameters vol ≡ ok snap
    → (validate snap.spec ≡ ok tt)
      × (snap.name ≡ name)
      × (snap.labels ≡ (volume_key, vol.name) ∷ [])
unfolding snapshot_object with_name new_builder with_labels merge insert with_vs_name
    with_vs_namespace with_vsc_name with_reserved_user_prop validate validate_loop ◌==◌
snapshot_object-built helpers [] parameters vol snap full h = cc
snapshot_object-built helpers (c ∷ name) parameters vol snap full h =
    let parameter : Str → Str = λ key. helpers.insensitive_parameter parameters key in
    let vs = parameter (codes "csi.storage.k8s.io/volumesnapshot/name") in
    let namespace = parameter (codes "csi.storage.k8s.io/volumesnapshot/namespace") in
    let content = parameter (codes "csi.storage.k8s.io/volumesnapshotcontent/name") in
    let named = with_name (c ∷ name) new_builder in
    let second = with_vs_name vs named in
    let third = with_vs_namespace namespace second in
    let sound = snapshot-IsSound (codes "openebs.io:vsc-name") content third refl (
      snapshot-IsSound (codes "openebs.io:vs-namespace") namespace second refl
        (snapshot-IsSound (codes "openebs.io:vs-name") vs named refl (λ _. refl))) in
    let last = with_labels ((volume_key, vol.name) ∷ []) (with_vsc_name content third) in
    let (valid, same) = built-snapshot last snap h sound in
    (valid, ap (λ o. o.name) (sym same), ap (λ o. o.labels) (sym same))

-- The objects that `CreateSnapshot` adds pass `Validate`.
pub pending_snapshot-validate :
    (helpers : Helpers) (name : Str) (parameters : Dict Str) (vol : ZfsVolume) (snap : ZfsSnapshot)
    → is_empty name ≡ false
    → snapshot_object helpers name parameters vol ≡ ok snap
    → validate (pending_snapshot vol snap).spec ≡ ok tt
unfolding pending_snapshot validate
pending_snapshot-validate helpers name parameters vol snap full h =
    (snapshot_object-built helpers name parameters vol snap full h).0
