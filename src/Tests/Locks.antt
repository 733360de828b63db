-- ===== src/Tests/Locks.antt =====
-- Requests of the controller and the names that they lock.
use zfs_localpv.Prelude.{
  ℕ, zero, suc, Str, codes, [], ◌∷◌, ◌≡◌, ◌≢◌, refl, Bool, true, false, arith,
}
use zfs_localpv.Lock.{State, Reach, here, start, Request, keys, lock_volume_with_snapshot}
use zfs_localpv.Lock.Invariant.{Inv, Reach-Inv}
use zfs_localpv.Lock.Progress.{CanStep, Reach-CanStep}
use zfs_localpv.Lock.Deadlock.{lock_self_deadlock, lock_crossed_deadlock, waits}

-- a snapshot of the volume `v`, by every request
abbrev snapshots : ℕ → Request
snapshots i = lock_volume_with_snapshot (codes "v") (codes "s")

-- the first request names the volume as its snapshot, the others the snapshot as their volume
abbrev mixed : ℕ → Request
mixed zero = lock_volume_with_snapshot (codes "v") (codes "s")
mixed (suc i) = lock_volume_with_snapshot (codes "s") (codes "v")

abbrev same : ℕ → Request
same i = lock_volume_with_snapshot (codes "v") (codes "v")

abbrev is_snapshot : Str → Bool
is_snapshot [] = false
is_snapshot (c ∷ s) = elim (Prim.Native.Nat.compare c b's') [
  | Prim.Native.Nat.Ordering.eq ↦ true
  | _ ↦ false
]

Reach-Inv_example : Inv (start snapshots)
Reach-Inv_example = Reach-Inv snapshots here

Reach-CanStep_example : CanStep (start snapshots)
unfolding start keys
Reach-CanStep_example =
    Reach-CanStep snapshots is_snapshot 0 (λ j. (refl, refl)) here (λ h. cc (h.0))

lock_self_deadlock_example : ((start same).threads 0).wants ≢ []
lock_self_deadlock_example = lock_self_deadlock same 0 (codes "v") refl here

lock_crossed_deadlock_example :
    (s : State) × Reach (start mixed) s
    × ((t : State)
        → Reach s t
        → (t.threads 0 ≡ waits (codes "s") (codes "v" ∷ []))
          × (t.threads 1 ≡ waits (codes "v") (codes "s" ∷ [])))
lock_crossed_deadlock_example =
    lock_crossed_deadlock mixed 0 1 (codes "v") (codes "s") (λ e. absurd (omega arith))
      (λ e. ground arith) refl refl
