-- ===== src/Prelude/Ascii.antt =====
-- What the source uses of Go's `strings` on ASCII text, which the names of Kubernetes are.
use Prim.Native.Nat.{ℕ, ◌+◌}
use mathlib.Core.Path.{◌≡◌, refl}
use mathlib.Core.Bool.{Bool, true, false, ◌&&◌}
use mathlib.Core.List.{List, [], ◌∷◌, ◌++◌}
use native.Mathlib.Omega.{arith}
use zfs_localpv.Prelude.Tests.{leb, nat_eq, if◌then◌else◌}
use zfs_localpv.Prelude.Text.{Str}

abbrev pub lower_byte : ℕ → ℕ
lower_byte c = if leb b'A' c && leb c b'Z' then c + 32 else c

-- `strings.ToLower`
unfoldable pub to_lower : Str → Str
to_lower [] = []
to_lower (c ∷ s) = lower_byte c ∷ to_lower s

lower_byte_twice : (c : ℕ) → lower_byte (lower_byte c) ≡ lower_byte c
lower_byte_twice c = ground arith

-- A name in lower case stays as it is.
pub to_lower_twice : (s : Str) → to_lower (to_lower s) ≡ to_lower s
unfolding to_lower
to_lower_twice [] = refl
to_lower_twice (c ∷ s) = rw (lower_byte_twice c, to_lower_twice s) refl

abbrev pub cons_first : ℕ → List Str → List Str
cons_first c [] = (c ∷ []) ∷ []
cons_first c (part ∷ parts) = (c ∷ part) ∷ parts

-- `strings.Split` at a separator of one byte
unfoldable pub split : ℕ → Str → List Str
split sep [] = [] ∷ []
split sep (c ∷ s) =
    let parts = split sep s in if nat_eq c sep then [] ∷ parts else cons_first c parts

-- no byte is the separator
abbrev pub without : ℕ → Str → Bool
without sep [] = true
without sep (c ∷ s) = if nat_eq c sep then false else without sep s

pub split_without : (sep : ℕ) (s : Str) → without sep s ≡ true → split sep s ≡ s ∷ []
unfolding split
split_without sep [] h = refl
split_without sep (c ∷ s) h = let ih = split_without sep s in ground arith

-- Splitting takes a name and a separator apart that were put together.
pub split_append :
    (sep : ℕ) (name rest : Str)
    → without sep name ≡ true
    → split sep (name ++ sep ∷ rest) ≡ name ∷ split sep rest
unfolding split
split_append sep [] rest h = ground arith
split_append sep (c ∷ name) rest h = let ih = split_append sep name rest in ground arith
