-- ===== src/Controller/Snapshots.antt =====
-- `CreateSnapshot`, without the time of creation that the answer carries.
pub mod Object
pub mod Labelled
pub mod Answered
use zfs_localpv.Prelude.{
  ℕ, zero, suc, Str, codes, ◌==◌, List, [], ◌∷◌, ◌++◌, Bool, true, false, ◌||◌, if◌then◌else◌,
  is_empty, Dict, get_or, lookup, to_lower, Option, none, some,
}
use zfs_localpv.Prelude.Int.{ℤ, pos}
use zfs_localpv.Prelude.Decimal.{parse_int}
use zfs_localpv.Api.{
  ZfsVolume, ZfsSnapshot, Result, ok, err, status, plain, object_not_found, internal, not_found,
  invalid_argument, already_exists, deadline_exceeded,
}
use zfs_localpv.Zfs.Host.{Ran, ◌>>◌}
use zfs_localpv.Zfs.UserProperty.{validate_user_property}
use zfs_localpv.Builder.Volume.{◌|>◌}
use zfs_localpv.Builder.Snapshot.{
  new_builder, with_name, with_labels, with_vs_name, with_vs_namespace, with_vsc_name, build,
}
use zfs_localpv.Controller.Server.{Cluster, or_status, wrapped, volume_key}

-- `GetInsensitiveParameter` and `GetCaseInsensitiveMap` of lib-csi
pub record Helpers : Type 0 where
  pub insensitive_parameter : Dict Str → Str → Str
  pub insensitive_map : Dict Str → Dict Str

pub record SnapshotRequest : Type 0 where
  pub name : Str
  pub source_volume_id : Str
  pub parameters : Dict Str

pub record SnapshotResponse : Type 0 where
  pub source_volume_id : Str
  pub snapshot_id : Str
  pub size : ℤ
  pub ready : Bool

-- `GetZFSSnapshotCapacity`
unfoldable pub get_zfs_snapshot_capacity : ZfsSnapshot → Option ℤ
unfolding parse_int
get_zfs_snapshot_capacity snap =
    if is_empty snap.spec.capacity then some (pos 0) else parse_int snap.spec.capacity

abbrev pub sized_response : Str → Str → ZfsSnapshot → Option ℤ → Result SnapshotResponse
sized_response volume name snap none = err plain
sized_response volume name snap (some size) = ok (record {
  source_volume_id = volume;
  snapshot_id = volume ++ (codes "@" ++ name);
  size = size;
  ready = snap.state == codes "Ready";
})

-- the answer about a snapshot object
abbrev pub snapshot_response : {S : Type 0} → Str → Str → ZfsSnapshot → S → Ran S SnapshotResponse
snapshot_response volume name snap s =
    (sized_response volume name snap (get_zfs_snapshot_capacity snap), s)

abbrev pub is_of_volume : Str → ZfsSnapshot → Bool
is_of_volume volume snap = get_or volume_key snap.labels [] == volume

abbrev pub verified : {S : Type 0} → Str → Ran S ZfsSnapshot → Ran S (Unit {0})
verified volume (ok snap, s) =
    if is_of_volume volume snap then (ok tt, s) else (err (status already_exists), s)
verified volume (err object_not_found, s) = (ok tt, s)
verified volume (err e, s) = (err (status not_found), s)

-- the object that `CreateSnapshot` adds
unfoldable pub snapshot_object : Helpers → Str → Dict Str → ZfsVolume → Result ZfsSnapshot
unfolding build with_labels with_vsc_name with_vs_namespace with_vs_name with_name new_builder
    validate_user_property
snapshot_object helpers name parameters vol =
    let parameter : Str → Str = λ key. helpers.insensitive_parameter parameters key in
    build (
      new_builder
      |> with_name name
      |> with_vs_name (parameter (codes "csi.storage.k8s.io/volumesnapshot/name"))
      |> with_vs_namespace (parameter (codes "csi.storage.k8s.io/volumesnapshot/namespace"))
      |> with_vsc_name (parameter (codes "csi.storage.k8s.io/volumesnapshotcontent/name"))
      |> with_labels ((volume_key, vol.name) ∷ []))

-- It inherits the spec of the volume, but for the user properties.
unfoldable pub pending_snapshot : ZfsVolume → ZfsSnapshot → ZfsSnapshot
pending_snapshot vol snap = record snap {
  spec = record vol.spec { user_properties = snap.spec.user_properties };
  state = codes "Pending";
}

abbrev pub if_there :
    {S A : Type 0} → Ran S ZfsSnapshot → (ZfsSnapshot → S → Ran S A) → (S → Ran S A) → Ran S A
if_there (ok snap, s) found other = found snap s
if_there (err e, s) found other = other s

-- one round of the wait: `again` waits for the next round or gives up
abbrev pub polled : {S : Type 0} → Ran S ZfsSnapshot → (S → Ran S (Unit {0})) → Ran S (Unit {0})
polled (err e, s) again = (err (status internal), s)
polled (ok snap, s) again =
    if snap.state == codes "Ready"
    then (ok tt, s)
    else if snap.state == codes "Failed"
    then (err (status internal), s)
    else again s

module _ {S : Type 0} (api : Cluster S) (helpers : Helpers) where
  -- `verifySnapshotRequest`
  unfoldable pub verify_snapshot_request : SnapshotRequest → S → Ran S (Unit {0})
  verify_snapshot_request req s =
      if is_empty (to_lower req.name) || is_empty (to_lower req.source_volume_id)
      then (err (status invalid_argument), s)
      else verified (to_lower req.source_volume_id) (api.read_snapshot (to_lower req.name) s)

  -- `waitForReadySnapshot`; the context of the request ends after so many seconds
  unfoldable pub wait_for_ready_snapshot : ℕ → Str → S → Ran S (Unit {0})
  wait_for_ready_snapshot zero name s =
      polled (api.read_snapshot name s) (λ t. (err (status deadline_exceeded), t))
  wait_for_ready_snapshot (suc seconds) name s =
      polled (api.read_snapshot name s) (λ t. wait_for_ready_snapshot seconds name (api.sleep t))

  abbrev pub wait_if_asked : ℕ → Str → Option Str → S → Ran S (Unit {0})
  wait_if_asked seconds name none s = (ok tt, s)
  wait_if_asked seconds name (some _) s = wait_for_ready_snapshot seconds name s

  -- `CreateSnapshot`, where the object is built
  abbrev pub add_and_answer :
      ℕ → SnapshotRequest → ZfsVolume → ZfsSnapshot → S → Ran S SnapshotResponse
  add_and_answer seconds req vol snap s =
      let name = to_lower req.name in
      or_status internal (api.add_snapshot (pending_snapshot vol snap) s)
      >> (λ _ t.
          wait_if_asked seconds name
            (lookup (codes "wait") (helpers.insensitive_map req.parameters)) t)
      >> (λ _ t. wrapped (api.read_snapshot name t))
      >> snapshot_response (to_lower req.source_volume_id) name

  -- `CreateSnapshot`, where there is no snapshot of the name
  abbrev pub create_new : ℕ → SnapshotRequest → S → Ran S SnapshotResponse
  create_new seconds req s =
      or_status not_found (api.read_volume (to_lower req.source_volume_id) s) >> λ vol t.
      or_status internal (snapshot_object helpers (to_lower req.name) req.parameters vol, t)
      >> add_and_answer seconds req vol

  -- `CreateSnapshot`
  unfoldable pub controller_create_snapshot : ℕ → SnapshotRequest → S → Ran S SnapshotResponse
  unfolding get_zfs_snapshot_capacity wait_for_ready_snapshot snapshot_object pending_snapshot
      verify_snapshot_request
  controller_create_snapshot seconds req s = verify_snapshot_request req s >> λ _ t.
      if_there (api.read_snapshot (to_lower req.name) t)
        (snapshot_response (to_lower req.source_volume_id) (to_lower req.name))
        (create_new seconds req)
