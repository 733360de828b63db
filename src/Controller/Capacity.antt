-- ===== src/Controller/Capacity.antt =====
-- `getRoundedCapacity`, on int64 with its wrap-around. The division of Go rounds towards zero.
use zfs_localpv.Prelude.{
  ℕ, ◌+◌, ◌-◌, ◌*◌, ◌/◌, ◌%◌, ◌≤◌, ◌<◌, suc, ◌≡◌, refl, ◌∙◌, true, false, if◌then◌else◌, arith, ltb,
  Bool-cases, inl, inr, ap,
}
use zfs_localpv.Prelude.Int.{
  ℤ, pos, negsuc, add64, sub64, wrap64, wrap64_exact, sub_ℕ, ltb_ℤ, two63, two64, add64_pos,
  sub64_pos, ◌<ℤ◌,
}

abbrev pub mi : ℕ
mi = 1048576

abbrev pub gi : ℕ
gi = 1073741824

-- division and multiplication by a positive constant
abbrev pub quot64 : ℤ → ℕ → ℤ
quot64 (pos a) d = pos (a / d)
quot64 (negsuc a) d = sub_ℕ 0 (suc a / d)

abbrev pub mul64 : ℤ → ℕ → ℤ
mul64 (pos a) d = wrap64 (pos (a * d))
mul64 (negsuc a) d = wrap64 (sub_ℕ 0 (suc a * d))

-- `((size + unit - 1) / unit) * unit`
unfoldable pub round_up : ℕ → ℤ → ℤ
round_up unit size = mul64 (quot64 (sub64 (add64 size (pos unit)) (pos 1)) unit) unit

-- `getRoundedCapacity`
unfoldable pub get_rounded_capacity : ℤ → ℤ
unfolding round_up
get_rounded_capacity size = if ltb_ℤ (pos gi) size then round_up gi size else round_up mi size

-- the multiple that `round_up` reaches
abbrev pub rounded : ℕ → ℕ → ℕ
rounded unit size = (size + unit - 1) / unit * unit

round_up-rounded :
    (unit size : ℕ)
    → 1 ≤ size + unit
    → size + unit < two63
    → rounded unit size < two63
    → round_up unit (pos size) ≡ pos (rounded unit size)
unfolding round_up
round_up-rounded unit size some_unit fits result_fits =
    rw (add64_pos size unit fits, sub64_pos (size + unit) 1 fits some_unit)
      (wrap64_exact (pos (rounded unit size)) (omega arith, omega arith))

rounded-mi :
    (size : ℕ)
    → (size ≤ rounded mi size) × (rounded mi size < size + mi) × (rounded mi size % mi ≡ 0)
rounded-mi size = (omega arith, omega arith, omega arith)

rounded-gi :
    (size : ℕ)
    → (size ≤ rounded gi size) × (rounded gi size < size + gi) × (rounded gi size % gi ≡ 0)
rounded-gi size = (omega arith, omega arith, omega arith)

get_rounded_capacity-if :
    (size : ℕ)
    → get_rounded_capacity (pos size)
      ≡ (if ltb gi size then round_up gi (pos size) else round_up mi (pos size))
unfolding get_rounded_capacity
get_rounded_capacity-if size =
    let same : size + 0 ≡ size = omega arith in
    ap (λ n. if ltb gi n then round_up gi (pos size) else round_up mi (pos size)) same

-- the unit that the size is rounded to: Gi above one Gi, and Mi otherwise
abbrev pub unit_of : ℕ → ℕ
unit_of size = if ltb gi size then gi else mi

-- Where adding one Gi to the size does not overflow, the rounded capacity is the least multiple of
-- the unit that is at least the size: it is a multiple, at least the size, and less than a unit
-- above it.
pub get_rounded_capacity-unit_of :
    (size : ℕ)
    → size + gi < two63
    → (capacity : ℕ) × (get_rounded_capacity (pos size) ≡ pos capacity)
      × (size ≤ capacity)
      × (capacity < size + unit_of size)
      × (capacity % unit_of size ≡ 0)
get_rounded_capacity-unit_of size fits = elim (Bool-cases (ltb gi size)) [
  | inl h ↦ (
    rounded gi size,
    get_rounded_capacity-if size ∙ rw h (round_up-rounded gi size (omega arith) fits (omega arith)),
    (rounded-gi size).0,
    rw h (rounded-gi size).1,
    rw h (rounded-gi size).2,
  )
  | inr h ↦ (
    rounded mi size,
    get_rounded_capacity-if size
        ∙ rw h (round_up-rounded mi size (omega arith) (omega arith) (omega arith)),
    (rounded-mi size).0,
    rw h (rounded-mi size).1,
    rw h (rounded-mi size).2,
  )
]

wrap64_above : (n : ℕ) → two63 ≤ n → n < two64 → wrap64 (pos n) ≡ negsuc (two64 - 1 - n)
unfolding wrap64
wrap64_above n above below =
    let same : n % two64 ≡ n = omega arith in
    let large : ltb n two63 ≡ false = ground arith in rw (same, large) refl

sub_ℕ_negative : (n : ℕ) → 0 < n → sub_ℕ 0 n ≡ negsuc (n - 1)
sub_ℕ_negative n h = ground arith

wrap64_negative : (n : ℕ) → n < two63 → wrap64 (negsuc n) ≡ negsuc n
wrap64_negative n h = wrap64_exact (negsuc n) (omega arith, omega arith)

add64_above :
    (a b : ℕ) → two63 ≤ a + b → a + b < two64 → add64 (pos a) (pos b) ≡ negsuc (two64 - 1 - (a + b))
unfolding add64
add64_above a b above below = ground arith

sub64_negsuc : (k : ℕ) → k + 1 < two63 → sub64 (negsuc k) (pos 1) ≡ negsuc (k + 1)
unfolding sub64
sub64_negsuc k h = ground arith

mul64_negative : (q : ℕ) → 0 < q → q * gi ≤ two63 → mul64 (sub_ℕ 0 q) gi ≡ negsuc (q * gi - 1)
mul64_negative q some_q fits =
    let same : suc (q - 1) * gi ≡ q * gi = omega arith in
    rw (sub_ℕ_negative q some_q) (
      rw same
        (rw (sub_ℕ_negative (q * gi) (omega arith)) (wrap64_negative (q * gi - 1) (omega arith))))

round_up_overflow :
    (size : ℕ) → size < two63 → two63 ≤ size + gi - 1 → round_up gi (pos size) <ℤ pos 0
unfolding round_up
round_up_overflow size int64 over =
    let k : ℕ = two64 - 1 - (size + gi) in
    let q : ℕ = suc (k + 1) / gi in
    rw (add64_above size gi (omega arith) (omega arith), sub64_negsuc k (omega arith))
      (rw (mul64_negative q (omega arith) (omega arith)) (omega arith))

-- A size within one Gi of the end of int64 is rounded to a negative capacity.
pub get_rounded_capacity_overflow :
    (size : ℕ) → size < two63 → two63 ≤ size + gi - 1 → get_rounded_capacity (pos size) <ℤ pos 0
get_rounded_capacity_overflow size int64 over =
    let large : ltb gi size ≡ true = ground arith in
    rw (get_rounded_capacity-if size, large) (round_up_overflow size int64 over)
