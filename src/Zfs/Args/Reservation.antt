-- ===== src/Zfs/Args/Reservation.antt =====
-- The property that reserves the space of a thick volume.
use zfs_localpv.Prelude.{Str, codes, ◌==◌, ==_iff, ◌≡◌, ◌≢◌, ◌⊎◌, arith, get_or}
use zfs_localpv.Zfs.Args.{quota_property, reservation_property_name}

-- The lookup in `reservationPropertyName` never misses: whatever the quota type, the name is the
-- one that goes with the quota property, "refreservation" with "refquota" and "reservation" with
-- "quota".
pub reservation_property_name-quota_property :
    (quota_type : Str)
    → ((quota_type ≡ codes "refquota")
        × (quota_property quota_type ≡ codes "refquota")
        × (reservation_property_name quota_type ≡ codes "refreservation"))
      ⊎ ((quota_type ≢ codes "refquota")
          × (quota_property quota_type ≡ codes "quota")
          × (reservation_property_name quota_type ≡ codes "reservation"))
unfolding quota_property reservation_property_name get_or ◌==◌
reservation_property_name-quota_property quota_type =
    ground (arith, ==_iff quota_type (codes "refquota"))
