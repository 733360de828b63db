-- ===== src/Zfs/UserProperty.antt =====
-- pkg/zfs/util/userprop.go and `VolumeInfo.Validate`: which user properties are accepted.
use zfs_localpv.Prelude.{
  ℕ, Str, codes, ◌==◌, List, [], ◌∷◌, ◌≡◌, ◌↔◌, ◌≢◌, refl, sym, ◌∙◌, Bool, true, false, ◌||◌, ◌&&◌,
  if◌then◌else◌, arith, length, ltb, leb, nat_eq, is_empty, All, inl, inr, not, Bool-cases, any,
}
use zfs_localpv.Api.{VolumeInfo, Result, ok, err, status, invalid_argument, plain}
use zfs_localpv.Zfs.Host.{starts_with}

abbrev pub invalid : {A : Type 0} → Result A
invalid = err (status invalid_argument)

-- the bytes that the loop over a name accepts; the colon is counted apart
unfoldable pub is_name_byte : ℕ → Bool
is_name_byte b =
    leb b'a' b && leb b b'z'
    || leb b'0' b && leb b b'9'
    || nat_eq b b'-'
    || nat_eq b b'.'
    || nat_eq b b'_'

-- the loop over the bytes of a name, which says whether it has passed a colon
unfoldable pub name_loop : Str → Bool → Result Bool
unfolding is_name_byte
name_loop [] contains_colon = ok contains_colon
name_loop (b ∷ name) contains_colon =
    let plain_byte = name_loop name contains_colon in
    let colon = name_loop name true in
    if is_name_byte b then plain_byte else if nat_eq b b':' then colon else invalid

abbrev begins_with_dash : Str → Bool
begins_with_dash [] = false
begins_with_dash (b ∷ name) = nat_eq b b'-'

abbrev checked_value : Result Bool → Str → Result (Unit {0})
checked_value (err e) value = err e
checked_value (ok contains_colon) value =
    if not contains_colon then invalid else if ltb 8192 (length value) then invalid else ok tt

-- `ValidateUserProperty`
unfoldable pub validate_user_property : Str → Str → Result (Unit {0})
unfolding name_loop
validate_user_property name value =
    if is_empty name
    then invalid
    else if ltb 256 (length name)
    then invalid
    else if begins_with_dash name
    then invalid
    else checked_value (name_loop name false) value

-- one turn of the loop of `Validate`
abbrev pub validated : Result (Unit {0}) → Str → Result (Unit {0}) → Result (Unit {0})
validated (err e) name rest = err e
validated (ok _) name rest = if starts_with (codes "openebs.io:") name then rest else err plain

unfoldable pub validate_loop : List (Str × Str) → Result (Unit {0})
unfolding validate_user_property
validate_loop [] = ok tt
validate_loop ((name, value) ∷ props) =
    let rest = validate_loop props in validated (validate_user_property name value) name rest

-- `VolumeInfo.Validate`
unfoldable pub validate : VolumeInfo → Result (Unit {0})
unfolding validate_loop
validate spec = validate_loop spec.user_properties

abbrev pub allowed : ℕ → Bool
allowed b =
    leb b'a' b && leb b b'z'
    || leb b'0' b && leb b b'9'
    || nat_eq b b'-'
    || nat_eq b b'.'
    || nat_eq b b'_'
    || nat_eq b b':'

abbrev pub all_allowed : Str → Bool
all_allowed [] = true
all_allowed (b ∷ name) = allowed b && all_allowed name

-- A property as the driver accepts it: its own prefix, lower-case letters, digits and "-._:", a
-- name of at most 256 and a value of at most 8192 bytes.
abbrev pub accepted : Str → Str → Bool
accepted name value =
    starts_with (codes "openebs.io:") name
    && all_allowed name
    && leb (length name) 256
    && leb (length value) 8192

is_name_byte-allowed : (b : ℕ) → (is_name_byte b || nat_eq b b':') ≡ allowed b
unfolding is_name_byte
is_name_byte-allowed b = ground arith

name_loop-allowed :
    (name : Str) (colon : Bool)
    → name_loop name colon
      ≡ (if all_allowed name then ok (colon || any (λ b. nat_eq b b':') name) else invalid)
unfolding name_loop
name_loop-allowed [] true = refl
name_loop-allowed [] false = refl
name_loop-allowed (b ∷ name) colon =
    let rest = name_loop-allowed name colon in
    let found = name_loop-allowed name true in let fine = is_name_byte-allowed b in ground arith

any-starts_with :
    (test : ℕ → Bool) (prefix name : Str)
    → starts_with prefix name ≡ true
    → any test prefix ≡ true
    → any test name ≡ true
unfolding ◌==◌
any-starts_with test [] name h found = cc
any-starts_with test (a ∷ prefix) [] h found = cc
any-starts_with test (a ∷ prefix) (b ∷ name) h found =
    let rest = any-starts_with test prefix name in ground arith

starts_with-colon :
    (name : Str)
    → starts_with (codes "openebs.io:") name ≡ true
    → (is_empty name ≡ false)
      × (begins_with_dash name ≡ false)
      × (any (λ b. nat_eq b b':') name ≡ true)
unfolding ◌==◌
starts_with-colon [] h = cc
starts_with-colon (b ∷ name) h = (
  refl,
  ground arith,
  any-starts_with (λ c. nat_eq c b':') (codes "openebs.io:") (b ∷ name) h refl,
)

ltb-leb : (a b : ℕ) → ltb a b ≡ not (leb b a)
ltb-leb a b = ground arith

by_bits :
    (short fine brief : Bool)
    → (if not short
        then invalid
        else if fine
        then (if not brief then invalid else ok tt)
        else invalid)
      ≡ (if fine && short && brief then ok tt else invalid)
by_bits true true true = refl
by_bits true true false = refl
by_bits true false brief = refl
by_bits false true brief = refl
by_bits false false brief = refl

checked_value-if :
    (fine : Bool) (value : Str)
    → checked_value (if fine then ok true else invalid) value
      ≡ (if fine then (if not (leb (length value) 8192) then invalid else ok tt) else invalid)
checked_value-if true value = rw (ltb-leb 8192 (length value)) refl
checked_value-if false value = refl

by_limits :
    (size limit : ℕ) (fine : Bool) (value : Str)
    → (if ltb limit size then invalid else checked_value (if fine then ok true else invalid) value)
      ≡ (if fine && leb size limit && leb (length value) 8192 then ok tt else invalid)
by_limits size limit fine value =
    rw (ltb-leb limit size, checked_value-if fine value)
      (by_bits (leb size limit) fine (leb (length value) 8192))

validate_user_property-prefix :
    (name value : Str)
    → starts_with (codes "openebs.io:") name ≡ true
    → validate_user_property name value ≡ (
        if all_allowed name && leb (length name) 256 && leb (length value) 8192
        then ok tt
        else invalid)
unfolding validate_user_property
validate_user_property-prefix name value h =
    let (full, dash, colon) = starts_with-colon name h in
    rw (full, dash, name_loop-allowed name false, colon)
      (by_limits (length name) 256 (all_allowed name) value)

validated_iff :
    (checked rest : Result (Unit {0})) (name : Str)
    → starts_with (codes "openebs.io:") name ≡ true
    → (validated checked name rest ≡ ok tt) ↔ ((checked ≡ ok tt) × (rest ≡ ok tt))
validated_iff (ok _) rest name h = rw h (λ g. (refl, g), λ (_, g). g)
validated_iff (err e) rest name h = (λ g. cc, λ (g, _). cc)

validated-other :
    (checked rest : Result (Unit {0})) (name : Str)
    → starts_with (codes "openebs.io:") name ≡ false
    → validated checked name rest ≢ ok tt
validated-other (ok _) rest name h = rw h λ g. cc
validated-other (err e) rest name h = λ g. cc

fine_iff : (fine : Bool) → ((if fine then ok tt else invalid) ≡ ok tt) ↔ (fine ≡ true)
fine_iff true = (λ _. refl, λ _. refl)
fine_iff false = (λ g. cc, λ g. cc)

validated-accepted :
    (name value : Str) (rest : Result (Unit {0}))
    → (validated (validate_user_property name value) name rest ≡ ok tt)
      ↔ ((accepted name value ≡ true) × (rest ≡ ok tt))
validated-accepted name value rest =
    let checked = validate_user_property name value in
    elim (Bool-cases (starts_with (codes "openebs.io:") name)) [
      | inl h ↦
          let (there, back) = validated_iff checked rest name h in
          let same = validate_user_property-prefix name value h in
          let (fine, unfine) =
            fine_iff (all_allowed name && leb (length name) 256 && leb (length value) 8192) in
          rw h
            (λ g. (fine (sym same ∙ (there g).0), (there g).1), λ (g, r). back (same ∙ unfine g, r))
      | inr h ↦ rw h (λ g. absurd (validated-other checked rest name h g), λ (g, _). cc)
    ]

-- `Validate` accepts a volume exactly when each of its user properties has the driver's prefix, a
-- name of at most 256 lower-case letters, digits and "-._:", and a value of at most 8192 bytes.
-- With the prefix, the checks for an empty name, a leading dash and a missing colon never fail.
pub validate_iff :
    (spec : VolumeInfo)
    → (validate spec ≡ ok tt) ↔ All (λ prop. accepted prop.0 prop.1 ≡ true) spec.user_properties
unfolding validate validate_loop
validate_iff spec = go spec.user_properties
  where
    go :
        (props : List (Str × Str))
        → (validate_loop props ≡ ok tt) ↔ All (λ prop. accepted prop.0 prop.1 ≡ true) props
    go [] = (λ _. tt, λ _. refl)
    go ((name, value) ∷ props) =
        let (there, back) = validated-accepted name value (validate_loop props) in
        let (onwards, backwards) = go props in
        (λ h. ((there h).0, onwards (there h).1), λ (first, others). back (first, backwards others))
