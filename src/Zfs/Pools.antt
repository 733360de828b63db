-- ===== src/Zfs/Pools.antt =====
-- pkg/zfs/zfs_util.go: `decodeListOutput`, which reads the output of `zfs list`.
pub mod Printed
use mathlib.Core.List.{reverse}
use zfs_localpv.Prelude.{
  zero, suc, ◌-◌, ltb, length, ℕ, Str, codes, List, [], ◌∷◌, ◌++◌, Bool, true, false, ◌&&◌, ◌||◌,
  leb, nat_eq, any, if◌then◌else◌, split, Option, none, some, is_empty,
}
use zfs_localpv.Prelude.Int.{ℤ}
use zfs_localpv.Prelude.Decimal.{parse_int}
use zfs_localpv.Api.{Pool, Result, ok, err, plain, panicked}

abbrev pub is_space : ℕ → Bool
is_space c = leb 9 c && leb c 13 || nat_eq c 32

-- white space outside ASCII, as Unicode has it, in UTF-8
abbrev two_bytes : ℕ → ℕ → Bool
two_bytes a b = nat_eq a 194 && (nat_eq b 133 || nat_eq b 160)

abbrev three_bytes : ℕ → ℕ → ℕ → Bool
three_bytes a b c =
    nat_eq a 225 && nat_eq b 154 && nat_eq c 128
    || nat_eq a 226
      && (nat_eq b 128 && (leb 128 c && leb c 138 || nat_eq c 168 || nat_eq c 169 || nat_eq c 175)
          || nat_eq b 129 && nat_eq c 159)
    || nat_eq a 227 && nat_eq b 128 && nat_eq c 128

-- how many bytes the white space has that a text begins with, and the reversed text
abbrev pub first_width : Str → ℕ
first_width [] = 0
first_width (a ∷ []) = if is_space a then 1 else 0
first_width (a ∷ b ∷ []) = if is_space a then 1 else if two_bytes a b then 2 else 0
first_width (a ∷ b ∷ c ∷ s) =
    if is_space a then 1 else if two_bytes a b then 2 else if three_bytes a b c then 3 else 0

abbrev pub last_width : Str → ℕ
last_width [] = 0
last_width (a ∷ []) = if is_space a then 1 else 0
last_width (a ∷ b ∷ []) = if is_space a then 1 else if two_bytes b a then 2 else 0
last_width (a ∷ b ∷ c ∷ s) =
    if is_space a then 1 else if two_bytes b a then 2 else if three_bytes c b a then 3 else 0

-- `skip` bytes of a white space are still to be left out
unfoldable pub trim_with : (Str → ℕ) → ℕ → Str → Str
trim_with width skip [] = []
trim_with width zero (c ∷ s) =
    let rest = trim_with width (width (c ∷ s) - 1) s in
    if nat_eq (width (c ∷ s)) 0 then c ∷ s else rest
trim_with width (suc skip) (c ∷ s) = trim_with width skip s

-- `strings.TrimSpace`
unfoldable pub trim_space : Str → Str
unfolding trim_with
trim_space s = reverse (trim_with last_width 0 (reverse (trim_with first_width 0 s)))

-- the lines of a `bufio.Scanner`: what follows the last line feed is a line if it is not empty
abbrev pub drop_last_empty : List Str → List Str
drop_last_empty [] = []
drop_last_empty ([] ∷ []) = []
drop_last_empty ([] ∷ line ∷ lines) = [] ∷ drop_last_empty (line ∷ lines)
drop_last_empty ((c ∷ s) ∷ lines) = (c ∷ s) ∷ drop_last_empty lines

abbrev sized : Str → Str → Option ℤ → Option ℤ → Result Pool
sized name uuid none used = err plain
sized name uuid (some free) none = err plain
sized name uuid (some free) (some used) =
    ok (record { name = name; uuid = uuid; free = free; used = used })

-- a line of a pool; a missing field is an index out of range
unfoldable pub pool_of_items : List Str → Result Pool
pool_of_items (name ∷ uuid ∷ free ∷ used ∷ _) = sized name uuid (parse_int free) (parse_int used)
pool_of_items (name ∷ uuid ∷ free ∷ []) = elim (parse_int free) [
  | none ↦ err plain
  | some _ ↦ err panicked
]
pool_of_items _ = err panicked

abbrev first_item : List Str → Str
first_item [] = []
first_item (item ∷ _) = item

abbrev add_pool : Result Pool → Result (List Pool) → Result (List Pool)
add_pool (err e) rest = err e
add_pool (ok pool) (err e) = err e
add_pool (ok pool) (ok pools) = ok (pool ∷ pools)

-- the loop over the lines; the name of a volume has a slash, and that of a pool has none
unfoldable pub decode_lines : List Str → Result (List Pool)
unfolding trim_space pool_of_items split
decode_lines [] = ok []
decode_lines (line ∷ lines) =
    let items = split b'\t' (trim_space line) in
    let rest = decode_lines lines in
    if any (λ c. nat_eq c b'/') (first_item items)
    then rest
    else add_pool (pool_of_items items) rest

-- The scanner's buffer has 64 KiB at most: it stops at a line that does not fit with its line feed,
-- and its error is not looked at.
abbrev pub scanned : List Str → List Str
scanned [] = []
scanned (line ∷ lines) = if ltb (length line) 65536 then line ∷ scanned lines else []

-- `decodeListOutput`; the pools that it returns beside an error are not used
unfoldable pub decode_list_output : Str → Result (List Pool)
unfolding decode_lines split
decode_list_output raw = decode_lines (scanned (drop_last_empty (split b'\n' raw)))
