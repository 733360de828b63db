-- ===== src/Builder/Snapshot.antt =====
-- pkg/builder/snapbuilder/build.go
use zfs_localpv.Prelude.{
  Str, codes, List, [], ◌∷◌, ◌++◌, false, if◌then◌else◌, is_empty, Dict, insert,
}
use zfs_localpv.Api.{ZfsSnapshot, Error, plain, Result, ok, err}
use zfs_localpv.Zfs.Host.{starts_with}
use zfs_localpv.Zfs.UserProperty.{validate_user_property}
use zfs_localpv.Builder.Volume.{empty_info, merge}

abbrev pub empty_snapshot : ZfsSnapshot
empty_snapshot = record {
  name = [];
  labels = [];
  finalizers = [];
  deleting = false;
  spec = empty_info;
  state = [];
}

-- `Builder`
pub record SnapshotBuilder : Type 0 where
  pub object : ZfsSnapshot
  pub errs : List Error

unfoldable pub new_builder : SnapshotBuilder
new_builder = record { object = empty_snapshot; errs = [] }

unfoldable pub build_from : ZfsSnapshot → SnapshotBuilder
build_from snap = record { object = snap; errs = [] }

abbrev failed : SnapshotBuilder → SnapshotBuilder
failed b = record b { errs = b.errs ++ plain ∷ [] }

abbrev on_object : (ZfsSnapshot → ZfsSnapshot) → SnapshotBuilder → SnapshotBuilder
on_object f b = record b { object = f b.object }

unfoldable pub with_name : Str → SnapshotBuilder → SnapshotBuilder
with_name name b =
    if is_empty name then failed b else on_object (λ snap. record snap { name = name }) b

unfoldable pub with_labels : Dict Str → SnapshotBuilder → SnapshotBuilder
unfolding merge
with_labels labels b = on_object (λ snap. record snap { labels = merge labels snap.labels }) b

unfoldable pub with_finalizer : List Str → SnapshotBuilder → SnapshotBuilder
with_finalizer finalizer b =
    on_object (λ snap. record snap { finalizers = snap.finalizers ++ finalizer }) b

abbrev set_user_prop : Str → Str → SnapshotBuilder → SnapshotBuilder
set_user_prop name value b =
    on_object
      (λ snap. record snap {
        spec = record snap.spec { user_properties = insert name value snap.spec.user_properties };
      })
      b

abbrev noted : Result (Unit {0}) → List Error → List Error
noted (ok _) errs = errs
noted (err e) errs = errs ++ plain ∷ []

abbrev unreserved : Result (Unit {0}) → Str → Str → SnapshotBuilder → SnapshotBuilder
unreserved (err e) name value b = failed b
unreserved (ok _) name value b =
    if starts_with (codes "openebs.io:") name then failed b else set_user_prop name value b

unfoldable pub with_user_properties : Dict Str → SnapshotBuilder → SnapshotBuilder
unfolding validate_user_property
with_user_properties [] b = b
with_user_properties ((name, value) ∷ props) b =
    with_user_properties props (unreserved (validate_user_property name value) name value b)

unfoldable pub with_reserved_user_prop : Str → Str → SnapshotBuilder → SnapshotBuilder
with_reserved_user_prop name value b =
    set_user_prop name value (record b { errs = noted (validate_user_property name value) b.errs })

unfoldable pub with_vs_name : Str → SnapshotBuilder → SnapshotBuilder
unfolding with_reserved_user_prop
with_vs_name vs b = with_reserved_user_prop (codes "openebs.io:vs-name") vs b

unfoldable pub with_vs_namespace : Str → SnapshotBuilder → SnapshotBuilder
unfolding with_reserved_user_prop
with_vs_namespace vs b = with_reserved_user_prop (codes "openebs.io:vs-namespace") vs b

unfoldable pub with_vsc_name : Str → SnapshotBuilder → SnapshotBuilder
unfolding with_reserved_user_prop
with_vsc_name vsc b = with_reserved_user_prop (codes "openebs.io:vsc-name") vsc b

abbrev pub built : List Error → ZfsSnapshot → Result ZfsSnapshot
built [] snap = ok snap
built (_ ∷ _) snap = err plain

unfoldable pub build : SnapshotBuilder → Result ZfsSnapshot
build b = built b.errs b.object
