-- ===== src/Tests/Resize.antt =====
-- A resize that fails.
use zfs_localpv.Prelude.{
  Str, codes, ◌==◌, List, [], ◌∷◌, ◌≡◌, refl, true, false, if◌then◌else◌, get_or,
}
use zfs_localpv.Api.{ZfsVolume, ok, err, plain}
use zfs_localpv.Zfs.Args.{
  is_dataset, quota_property, reservation_property_name, build_volume_resize_args, volume_path,
}
use zfs_localpv.Zfs.Host.{zfs, Exec}
use zfs_localpv.Zfs.Resize.{get_volume_property}
use zfs_localpv.Tests.Volumes.{thick}

-- a dataset without a reservation, and a node on which `zfs set` fails
abbrev thin : ZfsVolume
thin = record thick { spec = record thick.spec { thin_provision = codes "yes" } }

unfoldable refuse : Exec (List (List Str))
unfolding ◌==◌
refuse command args log =
    if get_first args == codes "get"
    then (ok (codes "0\n"), args ∷ log)
    else (err plain, args ∷ log)
  where
    get_first : List Str → Str
    get_first [] = []
    get_first (a ∷ _) = a

abbrev got_args : List Str
got_args =
    codes "get"
    ∷ codes "-pH"
    ∷ codes "-o"
    ∷ codes "value"
    ∷ codes "refreservation"
    ∷ volume_path thin
    ∷ []

thin_dataset : is_dataset thin.spec ≡ true
unfolding is_dataset ◌==◌
thin_dataset = refl

thin_provisioned : (thin.spec.thin_provision == codes "no") ≡ false
unfolding ◌==◌
thin_provisioned = refl

got_reservation :
    get_volume_property refuse thin (reservation_property_name thin.spec.quota_type) []
    ≡ (ok (codes "0"), got_args ∷ [])
unfolding get_volume_property refuse reservation_property_name quota_property get_or ◌==◌
got_reservation = refl

set-failed :
    refuse zfs (build_volume_resize_args thin) (got_args ∷ [])
    ≡ (err plain, build_volume_resize_args thin ∷ got_args ∷ [])
unfolding refuse build_volume_resize_args ◌==◌
set-failed = refl
