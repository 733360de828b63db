-- ===== src/Lock/Deadlock.antt =====
-- Requests that wait: volumes and snapshots share one set of locked names.
use zfs_localpv.Prelude.{
  ℕ, Str, ◌==◌, ==_iff, List, [], ◌∷◌, ◌++◌, ◌≡◌, ◌≢◌, refl, true, false, arith, some, nat_eq,
  if◌then◌else◌, ◌⊎◌, inl, inr, Bool-cases,
}
use zfs_localpv.Lock.{
  Thread, State, Step, acquire, release, Reach, here, next, start, try_lock, with_thread, Request,
  keys, lock_volume_with_snapshot, Locked,
}
use zfs_localpv.Lock.Invariant.{Inv, Reach-Inv, Step-Inv}

abbrev pub waits : Str → List Str → Thread
waits w held = record { wants = w ∷ []; holds = held }

try_lock-taken :
    (v : Str) (locked : Locked) {l : Locked} → locked v ≡ true → try_lock v locked ≢ some l
unfolding try_lock
try_lock-taken v locked h e = ground arith

-- A request that waits for a name which somebody holds does not move in a step of another.
Step-stays :
    {s t : State} (i : ℕ) (w : Str) (held : List Str)
    → Step s t
    → s.threads i ≡ waits w held
    → s.locked w ≡ true
    → t.threads i ≡ waits w held
Step-stays {s} i w held (acquire j v rest l e ok) h taken = elim (Bool-cases (nat_eq j i)) [
  | inl same ↦ absurd (ground (arith, try_lock-taken v s.locked {l = l}))
  | inr other ↦ rw other h
]
Step-stays {s} i w held (release j v rest e eh) h taken = elim (Bool-cases (nat_eq j i)) [
  | inl same ↦ absurd (ground arith)
  | inr other ↦ rw other h
]

Step-either :
    {s t : State} (i : ℕ) (v : Str)
    → Step s t
    → Inv s
    → (s.threads i ≡ record { wants = v ∷ v ∷ []; holds = [] }) ⊎ (s.threads i ≡ waits v (v ∷ []))
    → (t.threads i ≡ record { wants = v ∷ v ∷ []; holds = [] }) ⊎ (t.threads i ≡ waits v (v ∷ []))
Step-either i v st inv (inr h) =
    inr (Step-stays i v (v ∷ []) st h (inv.held_locked i v (rw h (ground (arith, ==_iff v v)))))
Step-either i v (acquire j w rest l e ok) inv (inl h) = ground arith
Step-either i v (release j w rest e eh) inv (inl h) = ground arith

Reach-either :
    (requests : ℕ → Request) {s : State} (i : ℕ) (v : Str)
    → requests i ≡ lock_volume_with_snapshot v v
    → Reach (start requests) s
    → (s.threads i ≡ record { wants = v ∷ v ∷ []; holds = [] }) ⊎ (s.threads i ≡ waits v (v ∷ []))
unfolding start
Reach-either requests i v e here = inl (rw e refl)
Reach-either requests i v e (next r st) =
    Step-either i v st (Reach-Inv requests r) (Reach-either requests i v e r)

-- A request that locks a volume with a snapshot of the same name never gets both: in no state that
-- it reaches, alone or beside others, has it locked all its names.
pub lock_self_deadlock :
    (requests : ℕ → Request) {s : State} (i : ℕ) (v : Str)
    → requests i ≡ lock_volume_with_snapshot v v
    → Reach (start requests) s
    → (s.threads i).wants ≢ []
lock_self_deadlock requests i v e r done = elim (Reach-either requests i v e r) [
  | inl h ↦ ground arith
  | inr h ↦ ground arith
]

Reach-stays :
    {s t : State} (i j : ℕ) (a b : Str)
    → Inv s
    → s.threads i ≡ waits b (a ∷ [])
    → s.threads j ≡ waits a (b ∷ [])
    → Reach s t
    → Inv t × (t.threads i ≡ waits b (a ∷ [])) × (t.threads j ≡ waits a (b ∷ []))
Reach-stays i j a b inv hi hj here = (inv, hi, hj)
Reach-stays i j a b inv hi hj (next r st) =
    let (inv', hi', hj') = Reach-stays i j a b inv hi hj r in
    (
      Step-Inv st inv',
      Step-stays i b (a ∷ []) st hi' (inv'.held_locked j b (rw hj' (ground (arith, ==_iff b b)))),
      Step-stays j a (b ∷ []) st hj' (inv'.held_locked i a (rw hi' (ground (arith, ==_iff a a)))),
    )

-- Two requests that name the same two names in opposite order can reach a state from which neither
-- ever moves again: each holds the name that the other waits for.
pub lock_crossed_deadlock :
    (requests : ℕ → Request) (i j : ℕ) (a b : Str)
    → i ≢ j
    → a ≢ b
    → requests i ≡ lock_volume_with_snapshot a b
    → requests j ≡ lock_volume_with_snapshot b a
    → (s : State) × Reach (start requests) s
      × ((t : State)
          → Reach s t
          → (t.threads i ≡ waits b (a ∷ [])) × (t.threads j ≡ waits a (b ∷ [])))
unfolding start keys try_lock
lock_crossed_deadlock requests i j a b ne nab ei ej =
    let l1 : Locked = λ k. if a == k then true else false in
    let l2 : Locked = λ k. if b == k then true else l1 k in
    let mid : State = record {
      locked = l1;
      threads = with_thread (start requests).threads i (waits b (a ∷ []));
    } in
    let last : State = record {
      locked = l2;
      threads = with_thread mid.threads j (waits a ((mid.threads j).holds ++ b ∷ []));
    } in
    let first : Step (start requests) mid = acquire i a (b ∷ []) l1 (rw ei) refl in
    let second : Step mid last =
      acquire j b (a ∷ []) l2 (ground (arith, ej)) (ground (arith, ==_iff a b)) in
    let reached : Reach (start requests) last = next (next here first) second in
    (
      last,
      reached,
      λ t r.
          let (_, hi, hj) =
            Reach-stays i j a b (Reach-Inv requests reached) (ground arith) (ground arith) r in
          (hi, hj),
    )
