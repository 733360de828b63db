-- ===== src/Prelude/Text.antt =====
-- Go strings. A Go string is a sequence of bytes, so `Str` is a list of numbers; the literals of
-- the source are ASCII and are written `codes "..."`.
use Prim.Native.Nat.{ℕ}
use Prim.Native.Char.{code}
use Prim.Native.String.{String}
use mathlib.Core.Path.{◌≡◌, refl}
use mathlib.Core.Logic.{◌↔◌}
use mathlib.Core.Bool.{Bool, true, false, ◌&&◌}
use mathlib.Core.List.{List, [], ◌∷◌}
use native.Mathlib.Omega.{arith}
use zfs_localpv.Prelude.Tests.{nat_eq}

abbrev pub Str : Type 0
Str = List ℕ

abbrev pub codes : String → Str
codes String.[] = []
codes (String.◌∷◌ c s) = code c ∷ codes s

infix 50 ◌==◌
unfoldable pub ◌==◌ : Str → Str → Bool
[] == [] = true
[] == (b ∷ t) = false
(a ∷ s) == [] = false
(a ∷ s) == (b ∷ t) = nat_eq a b && s == t

pub ==→≡ : (s t : Str) → (s == t) ≡ true → s ≡ t
unfolding ◌==◌
==→≡ [] [] h = refl
==→≡ [] (b ∷ t) h = cc
==→≡ (a ∷ s) [] h = cc
==→≡ (a ∷ s) (b ∷ t) h = ground (arith, ==→≡ s t)

pub ==-self : (s : Str) → (s == s) ≡ true
unfolding ◌==◌
==-self [] = refl
==-self (a ∷ s) = ground (arith, ==-self s)

pub ==_iff : (s t : Str) → ((s == t) ≡ true) ↔ (s ≡ t)
==_iff s t = (==→≡ s t, λ e. rw e (==-self t))

-- `s == ""`, `len(s) == 0`
abbrev pub is_empty : Str → Bool
is_empty [] = true
is_empty (_ ∷ _) = false

pub is_empty_iff : (s : Str) → (is_empty s ≡ true) ↔ (s ≡ [])
is_empty_iff [] = (λ _. refl, λ _. refl)
is_empty_iff (x ∷ s) = (λ h. cc, λ h. cc)
