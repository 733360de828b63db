-- ===== src/Tests/Capacity.antt =====
-- Rounded capacities.
use zfs_localpv.Prelude.{ℕ, ◌+◌, ◌%◌, ◌≤◌, ◌<◌, ◌≡◌, refl, arith}
use zfs_localpv.Prelude.Int.{pos, ◌<ℤ◌, wrap64, add64, sub64}
use zfs_localpv.Controller.Capacity.{
  unit_of, get_rounded_capacity, get_rounded_capacity-unit_of, get_rounded_capacity_overflow,
}

get_rounded_capacity-mi : get_rounded_capacity (pos 1048577) ≡ pos 2097152
unfolding get_rounded_capacity add64 sub64 wrap64
get_rounded_capacity-mi = refl

get_rounded_capacity-nothing : get_rounded_capacity (pos 0) ≡ pos 0
unfolding get_rounded_capacity add64 sub64 wrap64
get_rounded_capacity-nothing = refl

get_rounded_capacity-unit_of_example :
    (capacity : ℕ) × (get_rounded_capacity (pos 1073741825) ≡ pos capacity)
    × (1073741825 ≤ capacity)
    × (capacity < 1073741825 + unit_of 1073741825)
    × (capacity % unit_of 1073741825 ≡ 0)
get_rounded_capacity-unit_of_example = get_rounded_capacity-unit_of 1073741825 (omega arith)

get_rounded_capacity_overflow_example : get_rounded_capacity (pos 9223372036854775807) <ℤ pos 0
get_rounded_capacity_overflow_example =
    get_rounded_capacity_overflow 9223372036854775807 (omega arith) (omega arith)
