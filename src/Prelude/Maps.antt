-- ===== src/Prelude/Maps.antt =====
-- A Go map with string keys, as an association list in insertion order.
use mathlib.Core.Path.{◌≡◌, refl}
use mathlib.Core.Option.{Option, none, some}
use mathlib.Core.List.{List, [], ◌∷◌}
use native.Mathlib.Omega.{arith}
use zfs_localpv.Prelude.Tests.{if◌then◌else◌}
use zfs_localpv.Prelude.Text.{Str, ◌==◌, ==_iff}

abbrev pub Dict {ℓ} : Type ℓ → Type ℓ
Dict V = List (Str × V)

module _ {ℓ} {V : Type ℓ} where
  -- `v, ok := m[k]`
  unfoldable pub lookup : Str → Dict V → Option V
  lookup key [] = none
  lookup key (entry ∷ rest) =
      let found = entry.0 == key in if found then some entry.1 else lookup key rest

  -- `m[k] = v`
  unfoldable pub insert : Str → V → Dict V → Dict V
  insert key value [] = (key, value) ∷ []
  insert key value (entry ∷ rest) =
      let found = entry.0 == key in
      if found then (entry.0, value) ∷ rest else entry ∷ insert key value rest

  -- the value of `m[k]`, with the zero value where the key is missing
  unfoldable pub get_or : Str → Dict V → V → V
  unfolding lookup
  get_or k m d = elim (lookup k m) [ none ↦ d | some v ↦ v ]

  -- After `m[key] = value`, only `key` reads differently.
  pub lookup-insert :
      (key other : Str) (value : V) (entries : Dict V)
      → lookup other (insert key value entries)
        ≡ (if key == other then some value else lookup other entries)
  unfolding lookup insert
  lookup-insert key other value [] = refl
  lookup-insert key other value (entry ∷ rest) =
      let ih = lookup-insert key other value rest in
      ground (arith, ==_iff key other, ==_iff entry.0 key, ==_iff entry.0 other)

  pub get_or-insert :
      (k j : Str) (v : V) (m : Dict V) (d : V)
      → get_or j (insert k v m) d ≡ (if k == j then v else get_or j m d)
  unfolding get_or
  get_or-insert k j v m d = ground (arith, lookup-insert k j v m)
