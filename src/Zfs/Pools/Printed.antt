-- ===== src/Zfs/Pools/Printed.antt =====
-- What `decodeListOutput` reads of the output of `zfs list -H -p -o name,guid,available,used`.
use mathlib.Core.List.{reverse, reverse-append, reverse-reverse}
use zfs_localpv.Prelude.{
  ltb, length, Bool, not, sym, filter, append_assoc, ℕ, Str, List, [], ◌∷◌, ◌++◌, ◌≡◌, refl, ap,
  ◌∙◌, true, false, nat_eq, any, split, without, split_append, split_without, is_empty, All, arith,
  Bool-cases, inl, inr, map,
}
use zfs_localpv.Prelude.Int.{ℤ, IsInt64}
use zfs_localpv.Prelude.Decimal.{
  format_int, parse_int-format_int, format_int-All, format_int-is_empty,
}
use zfs_localpv.Api.{Pool, ok}
use zfs_localpv.Zfs.Pools.{
  is_space, first_width, last_width, trim_with, trim_space, scanned, drop_last_empty, pool_of_items,
  decode_lines, decode_list_output,
}

abbrev pub Solid : Str → Type 0
Solid s = All (λ c. (is_space c ≡ false) × (ltb c 128 ≡ true)) s

-- one line, without its line feed
abbrev pub print_pool : Pool → Str
print_pool pool =
    pool.name
    ++ b'\t' ∷ (pool.uuid ++ b'\t' ∷ (format_int pool.free ++ b'\t' ∷ format_int pool.used))

abbrev pub print_pools : List Pool → Str
print_pools [] = []
print_pools (pool ∷ pools) = print_pool pool ++ b'\n' ∷ print_pools pools

-- what `zfs` guarantees of a row: a name and a guid in ASCII with no white space, sizes in int64, and a
-- line that fits the scanner
abbrev pub Listed : Pool → Type 0
Listed pool =
    (is_empty pool.name ≡ false)
    × Solid pool.name
    × Solid pool.uuid
    × IsInt64 pool.free
    × IsInt64 pool.used
    × (ltb (length (print_pool pool)) 65536 ≡ true)

-- The name of a pool has no slash, and the names of its datasets have one.
abbrev pub is_pool : Pool → Bool
is_pool row = not (any (λ c. nat_eq c b'/') row.name)

Solid-without : (sep : ℕ) (s : Str) → is_space sep ≡ true → Solid s → without sep s ≡ true
Solid-without sep [] h solid = refl
Solid-without sep (c ∷ s) h ((first, low), rest) =
    let ih = Solid-without sep s h rest in
    let other : nat_eq c sep ≡ false = ground arith in rw other ih

without-append :
    (sep : ℕ) (s t : Str)
    → without sep s ≡ true
    → without sep t ≡ true
    → without sep (s ++ t) ≡ true
without-append sep [] t h k = k
without-append sep (c ∷ s) t h k = let ih = without-append sep s t in ground arith

narrow :
    (a : ℕ) (s : Str)
    → is_space a ≡ false
    → ltb a 128 ≡ true
    → (first_width (a ∷ s) ≡ 0) × (last_width (a ∷ s) ≡ 0)
narrow a [] h low = (ground arith, ground arith)
narrow a (b ∷ []) h low = (ground arith, ground arith)
narrow a (b ∷ c ∷ s) h low = (ground arith, ground arith)

trim_first : (s t : Str) → is_empty s ≡ false → Solid s → trim_with first_width 0 (s ++ t) ≡ s ++ t
unfolding trim_with
trim_first [] t full solid = cc
trim_first (c ∷ s) t full ((h, low), rest) = rw ((narrow c (s ++ t) h low).0) refl

trim_last :
    (s : Str) (c : ℕ)
    → is_space c ≡ false
    → ltb c 128 ≡ true
    → reverse (trim_with last_width 0 (reverse (s ++ c ∷ []))) ≡ s ++ c ∷ []
unfolding trim_with
trim_last s c h low =
    let same : trim_with last_width 0 (c ∷ reverse s) ≡ c ∷ reverse s =
      rw ((narrow c (reverse s) h low).1) refl in
    ap (λ r. reverse (trim_with last_width 0 r)) (reverse-append s (c ∷ []))
    ∙ ap reverse (same ∙ sym (reverse-append s (c ∷ [])))
    ∙ reverse-reverse (s ++ c ∷ [])

-- A field that is not empty has a last byte.
last_byte :
    (s : Str)
    → is_empty s ≡ false
    → Solid s
    → (front : Str) × (c : ℕ) × (s ≡ front ++ c ∷ []) × (is_space c ≡ false) × (ltb c 128 ≡ true)
last_byte [] full solid = cc
last_byte (c ∷ []) full ((h, low), rest) = ([], c, refl, h, low)
last_byte (c ∷ d ∷ s) full (first, rest) =
    let (front, e, eq, h, low) = last_byte (d ∷ s) refl rest in
    (c ∷ front, e, ap (λ t. c ∷ t) eq, h, low)

number-Solid : (z : ℤ) → Solid (format_int z)
number-Solid z =
    format_int-All (λ c. (is_space c ≡ false) × (ltb c 128 ≡ true))
      (λ c low high. (ground arith, ground arith)) z (refl, refl)

-- A field is written after a tab.
field-without :
    (s t : Str) → Solid s → without b'\n' t ≡ true → without b'\n' (s ++ b'\t' ∷ t) ≡ true
field-without s t solid h = without-append b'\n' s (b'\t' ∷ t) (Solid-without b'\n' s refl solid) h

line-without : (pool : Pool) → Listed pool → without b'\n' (print_pool pool) ≡ true
line-without pool (full, name, uuid, free, used, fits) = field-without pool.name _ name (
    field-without pool.uuid _ uuid (
      field-without (format_int pool.free) _ (number-Solid pool.free)
        (Solid-without b'\n' (format_int pool.used) refl (number-Solid pool.used))))

line_front : Pool → Str → Str
line_front pool rest =
    pool.name ++ b'\t' ∷ (pool.uuid ++ b'\t' ∷ (format_int pool.free ++ b'\t' ∷ rest))

line_front-append : (pool : Pool) (s t : Str) → line_front pool (s ++ t) ≡ line_front pool s ++ t
unfolding line_front
line_front-append pool s t = simp append_assoc

line-trimmed : (pool : Pool) → Listed pool → trim_space (print_pool pool) ≡ print_pool pool
unfolding trim_space line_front
line-trimmed pool (full, name, uuid, free, used, fits) =
    let (front, c, eq, h, low) =
      last_byte (format_int pool.used) (format_int-is_empty pool.used) (number-Solid pool.used) in
    let line : print_pool pool ≡ line_front pool front ++ c ∷ [] =
      ap (line_front pool) eq ∙ line_front-append pool front (c ∷ []) in
    let first : trim_with first_width 0 (print_pool pool) ≡ print_pool pool =
      trim_first pool.name _ full name in
    ap (λ s. reverse (trim_with last_width 0 (reverse s))) (first ∙ line)
    ∙ trim_last (line_front pool front) c h low
    ∙ sym line

line-items :
    (pool : Pool)
    → Listed pool
    → split b'\t' (print_pool pool)
      ≡ pool.name ∷ pool.uuid ∷ format_int pool.free ∷ format_int pool.used ∷ []
line-items pool (full, name, uuid, free, used, fits) = rw (
  split_append b'\t' pool.name
      (pool.uuid ++ b'\t' ∷ (format_int pool.free ++ b'\t' ∷ format_int pool.used))
      (Solid-without b'\t' pool.name refl name),
  split_append b'\t' pool.uuid (format_int pool.free ++ b'\t' ∷ format_int pool.used)
      (Solid-without b'\t' pool.uuid refl uuid),
  split_append b'\t' (format_int pool.free) (format_int pool.used)
      (Solid-without b'\t' (format_int pool.free) refl (number-Solid pool.free)),
  split_without b'\t' (format_int pool.used)
      (Solid-without b'\t' (format_int pool.used) refl (number-Solid pool.used)),
)

drop_last_empty-full :
    (line : Str) (lines : List Str)
    → is_empty line ≡ false
    → drop_last_empty (line ∷ lines) ≡ line ∷ drop_last_empty lines
drop_last_empty-full [] lines h = cc
drop_last_empty-full (c ∷ s) lines h = refl

is_empty-append_left : (s t : Str) → is_empty s ≡ false → is_empty (s ++ t) ≡ false
is_empty-append_left [] t h = cc
is_empty-append_left (c ∷ s) t h = refl

lines_printed :
    (pools : List Pool)
    → All Listed pools
    → drop_last_empty (split b'\n' (print_pools pools)) ≡ map print_pool pools
unfolding split
lines_printed [] listed = refl
lines_printed (pool ∷ pools) (first, rest) =
    ap drop_last_empty
      (split_append b'\n' (print_pool pool) (print_pools pools) (line-without pool first))
    ∙ drop_last_empty-full (print_pool pool) _ (is_empty-append_left pool.name _ first.0)
    ∙ ap (λ lines. print_pool pool ∷ lines) (lines_printed pools rest)

pool_read :
    (pool : Pool)
    → Listed pool
    → pool_of_items (pool.name ∷ pool.uuid ∷ format_int pool.free ∷ format_int pool.used ∷ [])
      ≡ ok pool
unfolding pool_of_items
pool_read pool (full, name, uuid, free, used, fits) =
    rw (parse_int-format_int pool.free free, parse_int-format_int pool.used used)

scanned_printed :
    (rows : List Pool) → All Listed rows → scanned (map print_pool rows) ≡ map print_pool rows
scanned_printed [] listed = refl
scanned_printed (row ∷ rows) ((full, name, uuid, free, used, fits), rest) =
    rw (fits, scanned_printed rows rest) refl

decode_lines-printed :
    (rows : List Pool)
    → All Listed rows
    → decode_lines (map print_pool rows) ≡ ok (filter is_pool rows)
unfolding decode_lines
decode_lines-printed [] listed = refl
decode_lines-printed (row ∷ rows) (first, rest) =
    elim (Bool-cases (any (λ c. nat_eq c b'/') row.name)) [
      | inl h ↦
          rw (line-trimmed row first, line-items row first, h, decode_lines-printed rows rest) refl
      | inr h ↦
          rw
            (
              line-trimmed row first,
              line-items row first,
              h,
              pool_read row first,
              decode_lines-printed rows rest,
            )
            refl
    ]

-- Of the rows that `zfs list -H -p -o name,guid,available,used` prints, of pools and of datasets, the
-- pools are read back, those whose names have no slash, in their order: names and guids in ASCII
-- without white space, names that are not empty, sizes in int64, and lines of less than 64 KiB.
pub decode_list_output-print_pools :
    (rows : List Pool)
    → All Listed rows
    → decode_list_output (print_pools rows) ≡ ok (filter is_pool rows)
unfolding decode_list_output
decode_list_output-print_pools rows listed =
    ap (λ lines. decode_lines (scanned lines)) (lines_printed rows listed)
    ∙ ap decode_lines (scanned_printed rows listed)
    ∙ decode_lines-printed rows listed
