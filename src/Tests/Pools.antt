-- ===== src/Tests/Pools.antt =====
-- What `zfs list` prints of two pools.
use zfs_localpv.Prelude.{codes, [], ◌∷◌, ◌≡◌, refl, All, arith}
use zfs_localpv.Prelude.Int.{pos, negsuc}
use zfs_localpv.Api.{Pool, ok}
use zfs_localpv.Zfs.Pools.{decode_list_output}
use zfs_localpv.Zfs.Pools.Printed.{Listed, print_pools, decode_list_output-print_pools}

abbrev pub tank : Pool
tank = record { name = codes "tank"; uuid = codes "123"; free = pos 700; used = pos 40 }

abbrev pub full : Pool
full = record { name = codes "p"; uuid = codes "9"; free = negsuc 0; used = pos 0 }

-- a volume in the pool
abbrev pub volume_row : Pool
volume_row = record { name = codes "tank/v"; uuid = codes "5"; free = pos 700; used = pos 3 }

pub listed : All Listed (tank ∷ volume_row ∷ full ∷ [])
unfolding zfs_localpv.Prelude.Decimal.format_int
listed =
    let tank_Listed : Listed tank = (
      refl,
      ((refl, refl), ((refl, refl), ((refl, refl), ((refl, refl), tt)))),
      ((refl, refl), ((refl, refl), ((refl, refl), tt))),
      (omega arith, omega arith),
      (omega arith, omega arith),
      refl,
    ) in
    let row_Listed : Listed volume_row = (
      refl,
      (
        (refl, refl),
        ((refl, refl), ((refl, refl), ((refl, refl), ((refl, refl), ((refl, refl), tt))))),
      ),
      ((refl, refl), tt),
      (omega arith, omega arith),
      (omega arith, omega arith),
      refl,
    ) in
    let full_Listed : Listed full = (
      refl,
      ((refl, refl), tt),
      ((refl, refl), tt),
      (omega arith, omega arith),
      (omega arith, omega arith),
      refl,
    ) in
    (tank_Listed, (row_Listed, (full_Listed, tt)))

decode_list_output-print_pools_example :
    decode_list_output (print_pools (tank ∷ volume_row ∷ full ∷ [])) ≡ ok (tank ∷ full ∷ [])
decode_list_output-print_pools_example =
    decode_list_output-print_pools (tank ∷ volume_row ∷ full ∷ []) listed
