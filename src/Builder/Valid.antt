-- ===== src/Builder/Valid.antt =====
-- What the builders let through, beside what `Validate` accepts on the node.
use zfs_localpv.Prelude.{
  Str, codes, ◌==◌, ==→≡, List, [], ◌∷◌, ◌++◌, ◌≡◌, refl, sym, ◌∙◌, Bool, true, false, Dict, insert,
  if◌then◌else◌, Bool-cases, inl, inr,
}
use zfs_localpv.Api.{Result, ok, err, Error, plain, VolumeInfo, ZfsVolume, ZfsSnapshot}
use zfs_localpv.Zfs.Host.{starts_with}
use zfs_localpv.Zfs.UserProperty.{validate_user_property, validate_loop, validated, validate}
use zfs_localpv.Builder.Volume
use zfs_localpv.Builder.Volume.{VolumeBuilder}
use zfs_localpv.Builder.Snapshot
use zfs_localpv.Builder.Snapshot.{SnapshotBuilder}

abbrev pub IsReserved : Str → Type 0
IsReserved name = starts_with (codes "openebs.io:") name ≡ true

-- One turn of the loop of `Validate` that goes through.
validated-ok :
    (result : Result (Unit {0})) (name : Str) (rest : Result (Unit {0}))
    → validated result name rest ≡ ok tt
    → (result ≡ ok tt) × (IsReserved name) × (rest ≡ ok tt)
validated-ok (err e) name rest h = cc
validated-ok (ok _) name rest h =
    let (reserved, after) = go (starts_with (codes "openebs.io:") name) refl h in
    (refl, reserved, after)
  where
    go :
        (reserved : Bool)
        → starts_with (codes "openebs.io:") name ≡ reserved
        → (if reserved then rest else err plain) ≡ ok tt
        → IsReserved name × (rest ≡ ok tt)
    go true eq h = (eq, h)
    go false eq h = cc

validate_loop-insert :
    (name value : Str) (props : Dict Str)
    → IsReserved name
    → validate_user_property name value ≡ ok tt
    → validate_loop props ≡ ok tt
    → validate_loop (insert name value props) ≡ ok tt
unfolding validate_loop insert
validate_loop-insert name value [] reserved valid h = rw (valid, reserved)
validate_loop-insert name value ((key, old) ∷ props) reserved valid h =
    let (first, prefix, rest) =
      validated-ok (validate_user_property key old) key (validate_loop props) h in
    elim (Bool-cases (key == name)) [
      | inl found ↦ rw (found, ==→≡ key name found, valid, reserved) rest
      | inr other ↦
          rw (other, first, prefix) (validate_loop-insert name value props reserved valid rest)
    ]

append-not_nil : (errs : List Error) (e : Error) → (errs ++ e ∷ []) ≡ [] → ⊥
append-not_nil [] e h = cc
append-not_nil (f ∷ errs) e h = cc

-- Without errors so far, the user properties of the object are valid.
abbrev pub IsSound : List Error → VolumeInfo → Type 0
IsSound errs spec = errs ≡ [] → validate spec ≡ ok tt

-- What both builders do with a reserved property, whether it is valid or not.
reserved-IsSound :
    (name value : Str) (errs after : List Error) (props : Dict Str)
    → IsReserved name
    → (errs ≡ [] → validate_loop props ≡ ok tt)
    → (validate_user_property name value ≡ ok tt → after ≡ errs)
    → ((e : Error) → validate_user_property name value ≡ err e → after ≡ errs ++ plain ∷ [])
    → after ≡ []
    → validate_loop (insert name value props) ≡ ok tt
reserved-IsSound name value errs after props reserved sound good bad none_after =
    go (validate_user_property name value) refl
  where
    go :
        (result : Result (Unit {0}))
        → validate_user_property name value ≡ result
        → validate_loop (insert name value props) ≡ ok tt
    go (ok _) eq =
        validate_loop-insert name value props reserved eq (sound (sym (good eq) ∙ none_after))
    go (err e) eq = absurd (append-not_nil errs plain (sym (bad e eq) ∙ none_after))

pub volume-IsSound :
    (name value : Str) (b : VolumeBuilder)
    → IsReserved name
    → IsSound b.errs b.object.spec
    → let after = Volume.with_reserved_user_prop name value b in
      IsSound after.errs after.object.spec
unfolding Volume.with_reserved_user_prop validate
volume-IsSound name value b is_reserved sound =
    reserved-IsSound name value b.errs _ b.object.spec.user_properties is_reserved sound
      (λ eq. rw eq) (λ e eq. rw eq)

pub snapshot-IsSound :
    (name value : Str) (b : SnapshotBuilder)
    → IsReserved name
    → IsSound b.errs b.object.spec
    → let after = Snapshot.with_reserved_user_prop name value b in
      IsSound after.errs after.object.spec
unfolding Snapshot.with_reserved_user_prop validate
snapshot-IsSound name value b is_reserved sound =
    reserved-IsSound name value b.errs _ b.object.spec.user_properties is_reserved sound
      (λ eq. rw eq) (λ e eq. rw eq)

pub built-volume :
    (b : VolumeBuilder) (vol : ZfsVolume)
    → Volume.build b ≡ ok vol
    → IsSound b.errs b.object.spec
    → (validate vol.spec ≡ ok tt) × (b.object ≡ vol)
unfolding Volume.build
built-volume b vol h sound = go b.errs h sound
  where
    go :
        (errs : List Error)
        → Volume.built errs b.object ≡ ok vol
        → IsSound errs b.object.spec
        → (validate vol.spec ≡ ok tt) × (b.object ≡ vol)
    go [] eq valid = let same : b.object ≡ vol = cc in (rw (← same) (valid refl), same)
    go (e ∷ errs) eq valid = cc

pub built-snapshot :
    (b : SnapshotBuilder) (snap : ZfsSnapshot)
    → Snapshot.build b ≡ ok snap
    → IsSound b.errs b.object.spec
    → (validate snap.spec ≡ ok tt) × (b.object ≡ snap)
unfolding Snapshot.build
built-snapshot b snap h sound = go b.errs h sound
  where
    go :
        (errs : List Error)
        → Snapshot.built errs b.object ≡ ok snap
        → IsSound errs b.object.spec
        → (validate snap.spec ≡ ok tt) × (b.object ≡ snap)
    go [] eq valid = let same : b.object ≡ snap = cc in (rw (← same) (valid refl), same)
    go (e ∷ errs) eq valid = cc
