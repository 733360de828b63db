-- ===== src/Prelude/Decimal.antt =====
-- `strconv.FormatInt` and `strconv.ParseInt` in base 10, for int64.
use Prim.Native.Nat.{ℕ, zero, suc, ◌+◌, ◌-◌, ◌*◌, ◌/◌, ◌%◌, ◌≤◌, ◌<◌}
use mathlib.Core.Path.{◌≡◌, refl, sym, ap, ◌∙◌}
use mathlib.Core.Logic.{inl, inr}
use mathlib.Core.Bool.{true, false, ◌&&◌}
use mathlib.Core.List.{[], ◌∷◌, ◌++◌, append_assoc, append-nil}
use mathlib.Core.Option.{Option, none, some}
use native.Mathlib.Omega.{arith}
use zfs_localpv.Prelude.Tests.{ltb, leb, nat_eq, if◌then◌else◌, Bool-cases}
use zfs_localpv.Prelude.Text.{Str, is_empty}
use zfs_localpv.Prelude.Lists.{All, All-append}
use zfs_localpv.Prelude.Int.{ℤ, pos, negsuc, sub_ℕ, two63, IsInt64}

-- a number of at most as many rounds as its value
unfoldable digits : ℕ → ℕ → Str
digits zero n = (b'0' + n) ∷ []
digits (suc rounds) n =
    let high = digits rounds (n / 10) in
    if ltb n 10 then (b'0' + n) ∷ [] else high ++ (b'0' + n % 10) ∷ []

unfoldable pub format_nat : ℕ → Str
unfolding digits
format_nat n = digits n n

unfoldable pub format_int : ℤ → Str
unfolding format_nat
format_int (pos n) = format_nat n
format_int (negsuc n) = b'-' ∷ format_nat (suc n)

unfoldable digit_loop : Str → ℕ → Option ℕ
digit_loop [] acc = some acc
digit_loop (c ∷ s) acc =
    let rest = digit_loop s (10 * acc + (c - b'0')) in
    if leb b'0' c && leb c b'9' then rest else none

abbrev digits_of : Str → Option ℕ
digits_of [] = none
digits_of (c ∷ s) = digit_loop (c ∷ s) 0

abbrev positive : Option ℕ → Option ℤ
positive none = none
positive (some n) = if ltb n two63 then some (pos n) else none

abbrev negative : Option ℕ → Option ℤ
negative none = none
negative (some n) = if leb n two63 then some (sub_ℕ 0 n) else none

-- `none` where `ParseInt` returns an error
unfoldable pub parse_int : Str → Option ℤ
unfolding digit_loop
parse_int [] = none
parse_int (c ∷ s) =
    if nat_eq c b'-'
    then negative (digits_of s)
    else if nat_eq c b'+'
    then positive (digits_of s)
    else positive (digits_of (c ∷ s))

one_digit : (n : ℕ) (rest : Str) → n < 10 → digit_loop ((b'0' + n) ∷ rest) 0 ≡ digit_loop rest n
unfolding digit_loop
one_digit n rest h = ground arith

last_digit : (n : ℕ) (rest : Str) → digit_loop ((b'0' + n % 10) ∷ rest) (n / 10) ≡ digit_loop rest n
unfolding digit_loop
last_digit n rest =
    let value : 10 * (n / 10) + (b'0' + n % 10 - b'0') ≡ n = omega arith in
    let low : leb b'0' (b'0' + n % 10) ≡ true = ground arith in
    let high : leb (b'0' + n % 10) b'9' ≡ true = ground arith in rw (low, high, value) refl

digit_loop-digits :
    (rounds n : ℕ) (rest : Str)
    → n ≤ rounds
    → digit_loop (digits rounds n ++ rest) 0 ≡ digit_loop rest n
unfolding digit_loop digits
digit_loop-digits zero n rest h = ground arith
digit_loop-digits (suc rounds) n rest h = elim (Bool-cases (ltb n 10)) [
  | inl small ↦ rw small (one_digit n rest (ground arith))
  | inr large ↦
      let last : Str = (b'0' + n % 10) ∷ rest in
      rw large (
        rw (append_assoc (digits rounds (n / 10)) ((b'0' + n % 10) ∷ []) rest)
          (digit_loop-digits rounds (n / 10) last (ground arith) ∙ last_digit n rest))
]

-- a text that begins with a digit
abbrev DigitFirst : Str → Type 0
DigitFirst [] = ⊥
DigitFirst (c ∷ s) = (b'0' ≤ c) × (c ≤ b'9')

DigitFirst-append : (s t : Str) → DigitFirst s → DigitFirst (s ++ t)
DigitFirst-append [] t h = absurd h
DigitFirst-append (c ∷ s) t h = h

DigitFirst-is_empty : (s : Str) → DigitFirst s → is_empty s ≡ false
DigitFirst-is_empty [] h = absurd h
DigitFirst-is_empty (c ∷ s) h = refl

digits-DigitFirst : (rounds n : ℕ) → n ≤ rounds → DigitFirst (digits rounds n)
unfolding digits
digits-DigitFirst zero n h = omega arith
digits-DigitFirst (suc rounds) n h = elim (Bool-cases (ltb n 10)) [
  | inl small ↦ rw small (ground arith)
  | inr large ↦ rw large (
      DigitFirst-append (digits rounds (n / 10)) _
        (digits-DigitFirst rounds (n / 10) (ground arith)))
]

digit_loop-format_nat : (n : ℕ) → digit_loop (format_nat n) 0 ≡ some n
unfolding format_nat digit_loop
digit_loop-format_nat n =
    ap (λ s. digit_loop s 0) (sym (append-nil (digits n n)))
    ∙ digit_loop-digits n n [] (omega arith)

parse_int-digits :
    (s : Str) (n : ℕ)
    → DigitFirst s
    → digit_loop s 0 ≡ some n
    → (parse_int s ≡ positive (some n)) × (digits_of s ≡ some n)
unfolding parse_int
parse_int-digits [] n h e = absurd h
parse_int-digits (c ∷ s) n h e =
    let minus : nat_eq c b'-' ≡ false = ground arith in
    let plus : nat_eq c b'+' ≡ false = ground arith in (rw (minus, plus) (ap positive e), e)

positive_exact : (n : ℕ) → n < two63 → positive (some n) ≡ some (pos n)
positive_exact n h = ground arith

negative_exact : (n : ℕ) → suc n ≤ two63 → negative (some (suc n)) ≡ some (negsuc n)
negative_exact n h = ground arith

-- What `FormatInt` writes, `ParseInt` reads back.
pub parse_int-format_int : (z : ℤ) → IsInt64 z → parse_int (format_int z) ≡ some z
unfolding parse_int format_int format_nat
parse_int-format_int (pos n) h =
    (parse_int-digits (format_nat n) n (digits-DigitFirst n n (omega arith))
      (digit_loop-format_nat n)).0
    ∙ positive_exact n h.0
parse_int-format_int (negsuc n) h =
    let (_, read) =
      parse_int-digits (format_nat (suc n)) (suc n)
        (digits-DigitFirst (suc n) (suc n) (omega arith)) (digit_loop-format_nat (suc n)) in
    ap negative read ∙ negative_exact n h.1

-- What holds of the digits and of the sign holds of every byte that `FormatInt` writes.
module _ (P : ℕ → Type 0) (digit : (c : ℕ) → b'0' ≤ c → c ≤ b'9' → P c) where
  digits-All : (rounds n : ℕ) → n ≤ rounds → All P (digits rounds n)
  unfolding digits
  digits-All zero n h = (digit (b'0' + n) (omega arith) (omega arith), tt)
  digits-All (suc rounds) n h = elim (Bool-cases (ltb n 10)) [
    | inl small ↦ rw small (digit (b'0' + n) (omega arith) (ground arith), tt)
    | inr large ↦ rw large (
        All-append P (digits rounds (n / 10)) _ (digits-All rounds (n / 10) (ground arith))
          (digit (b'0' + n % 10) (omega arith) (omega arith), tt))
  ]

  pub format_int-All : (z : ℤ) → P b'-' → All P (format_int z)
  unfolding format_int format_nat
  format_int-All (pos n) sign = digits-All n n (omega arith)
  format_int-All (negsuc n) sign = (sign, digits-All (suc n) (suc n) (omega arith))

pub format_int-is_empty : (z : ℤ) → is_empty (format_int z) ≡ false
unfolding format_int format_nat
format_int-is_empty (pos n) = DigitFirst-is_empty _ (digits-DigitFirst n n (omega arith))
format_int-is_empty (negsuc n) = refl
