-- ===== src/Lock/Progress.antt =====
-- Requests that lock names in a common order.
use zfs_localpv.Prelude.{
  ℕ, zero, suc, ◌+◌, ◌≤◌, ◌<◌, Str, ◌==◌, ==_iff, List, [], ◌∷◌, ◌++◌, ◌≡◌, refl, Bool, true, false,
  arith, some, contains, nat_eq, if◌then◌else◌, inl, inr, Bool-cases, All, All-append, subst,
}
use mathlib.Core.Bool.{false≢true}
use zfs_localpv.Lock.{
  Thread, State, Step, acquire, release, Reach, here, next, start, try_lock, Request, keys,
  lock_volume, lock_volume_with_snapshot, Locked,
}
use zfs_localpv.Lock.Invariant.{Inv, Reach-Inv}

abbrev pub IsFinished : Thread → Type 0
IsFinished t = (t.wants ≡ []) × (t.holds ≡ [])

-- some request can make a step
abbrev pub CanStep : State → Type 0
CanStep s = (t : State) × Step s t

try_lock-free :
    (v : Str) (locked : Locked) → locked v ≡ false → (l : Locked) × (try_lock v locked ≡ some l)
unfolding try_lock
try_lock-free v locked h = ((λ k. if v == k then true else locked k), ground arith)

module _ (rank : Str → ℕ) where
  -- What is wanted comes in rising rank, above all that is held.
  abbrev Rising : List Str → Type 0
  Rising [] = Unit
  Rising (w ∷ ws) = All (λ x. rank w < rank x) ws × Rising ws

  record InOrder (t : Thread) : Type 0 where
    rising : Rising t.wants
    above : All (λ w. All (λ h. rank h < rank w) t.holds) t.wants

  acquire-InOrder :
      (v : Str) (rest holds : List Str)
      → InOrder (record { wants = v ∷ rest; holds = holds })
      → InOrder (record { wants = rest; holds = holds ++ v ∷ [] })
  acquire-InOrder v rest holds o = record {
    rising = o.rising.1;
    above = both rest o.above.1 o.rising.0;
  }
    where
      both :
          (ws : List Str)
          → All (λ w. All (λ h. rank h < rank w) holds) ws
          → All (λ w. rank v < rank w) ws
          → All (λ w. All (λ h. rank h < rank w) (holds ++ v ∷ [])) ws
      both [] h k = tt
      both (w ∷ ws) h k = (All-append _ holds (v ∷ []) h.0 (k.0, tt), both ws h.1 k.1)

  Step-InOrder :
      {s t : State} → Step s t → ((i : ℕ) → InOrder (s.threads i)) → (i : ℕ) → InOrder (t.threads i)
  Step-InOrder {s} (acquire i v rest l w e) o j = elim (Bool-cases (nat_eq i j)) [
    | inl same ↦ rw same (
        acquire-InOrder v rest (s.threads i).holds
          (subst (λ ws. InOrder (record { wants = ws; holds = (s.threads i).holds })) w (o i)))
    | inr other ↦ rw other (o j)
  ]
  Step-InOrder (release i v rest w h) o j = elim (Bool-cases (nat_eq i j)) [
    | inl same ↦ rw same (record { rising = tt; above = tt })
    | inr other ↦ rw other (o j)
  ]

  Reach-InOrder :
      (requests : ℕ → Request) {s : State}
      → ((i : ℕ) → Rising (keys (requests i)))
      → Reach (start requests) s
      → (i : ℕ) → InOrder (s.threads i)
  unfolding start
  Reach-InOrder requests h here i = record {
    rising = h i;
    above = nothing_held (keys (requests i));
  }
    where
      nothing_held : (ws : List Str) → All (λ w. All (λ h. rank h < rank w) []) ws
      nothing_held [] = tt
      nothing_held (w ∷ ws) = (tt, nothing_held ws)
  Reach-InOrder requests h (next r st) i = Step-InOrder st (Reach-InOrder requests h r) i

  held-rank :
      (t : Thread) (v w : Str) (rest : List Str)
      → InOrder t
      → t.wants ≡ w ∷ rest
      → contains v t.holds ≡ true
      → rank v < rank w
  held-rank t v w rest o e h =
      go t.holds (subst (All (λ x. All (λ y. rank y < rank x) t.holds)) e o.above).0 h
    where
      go : (hs : List Str) → All (λ y. rank y < rank w) hs → contains v hs ≡ true → rank v < rank w
      go [] a c = cc
      go (x ∷ hs) a c = ground (arith, ==_iff x v, go hs a.1)

  -- The holder of a name gives it back, or wants a name of higher rank.
  holder-CanStep :
      {s : State} (j : ℕ) (v : Str) (ws hs : List Str)
      → InOrder (s.threads j)
      → contains v (s.threads j).holds ≡ true
      → (s.threads j).wants ≡ ws
      → (s.threads j).holds ≡ hs
      → ((u : Str) (us : List Str) → rank v < rank u → (s.threads j).wants ≡ u ∷ us → CanStep s)
      → CanStep s
  holder-CanStep j v [] [] o held ew eh f = absurd (false≢true (rw eh at held))
  holder-CanStep j v [] (k ∷ hs) o held ew eh f = (_, release j k hs ew eh)
  holder-CanStep {s} j v (u ∷ us) hs o held ew eh f =
      f u us (held-rank (s.threads j) v u us o ew held) ew

  -- Follow the chain of waiting requests: the rank rises, so it ends at one that can step.
  chain-CanStep :
      {s : State} (fuel : ℕ) (i : ℕ) (v : Str) (rest : List Str)
      → Inv s
      → ((j : ℕ) → InOrder (s.threads j))
      → (bound : ℕ) → ((k : Str) → rank k < bound)
      → bound ≤ rank v + fuel
      → (s.threads i).wants ≡ v ∷ rest
      → CanStep s
  chain-CanStep zero i v rest inv o bound low h w = absurd (omega (arith, low v))
  chain-CanStep {s} (suc fuel) i v rest inv o bound low h w = elim (Bool-cases (s.locked v)) [
    | inr free ↦ let (l, e) = try_lock-free v s.locked free in (_, acquire i v rest l w e)
    | inl taken ↦
        let (j, held) = inv.locked_held v taken in
        holder-CanStep j v (s.threads j).wants (s.threads j).holds (o j) held refl refl
          (λ u us higher e. chain-CanStep fuel j u us inv o bound low (omega arith) e)
  ]

  unfinished-CanStep :
      {s : State} (i : ℕ) (ws hs : List Str)
      → Inv s
      → ((j : ℕ) → InOrder (s.threads j))
      → (bound : ℕ) → ((k : Str) → rank k < bound)
      → (s.threads i).wants ≡ ws
      → (s.threads i).holds ≡ hs
      → ¬ (IsFinished (s.threads i))
      → CanStep s
  unfinished-CanStep i [] [] inv o bound low ew eh n = absurd (n (ew, eh))
  unfinished-CanStep i [] (k ∷ hs) inv o bound low ew eh n = (_, release i k hs ew eh)
  unfinished-CanStep i (v ∷ ws) hs inv o bound low ew eh n =
      chain-CanStep bound i v ws inv o bound low (omega arith) ew

-- A volume's name is no snapshot's, and a snapshot's is one, by some test on names.
abbrev pub TellsApart : (Str → Bool) → Request → Type 0
TellsApart is_snapshot (lock_volume v) = is_snapshot v ≡ false
TellsApart is_snapshot (lock_volume_with_snapshot v s) =
    (is_snapshot v ≡ false) × (is_snapshot s ≡ true)

abbrev snapshot_rank : (Str → Bool) → Str → ℕ
snapshot_rank is_snapshot k = if is_snapshot k then 1 else 0

TellsApart-Rising :
    (is_snapshot : Str → Bool) (r : Request)
    → TellsApart is_snapshot r
    → Rising (snapshot_rank is_snapshot) (keys r)
unfolding keys
TellsApart-Rising is_snapshot (lock_volume v) h = (tt, tt)
TellsApart-Rising is_snapshot (lock_volume_with_snapshot v s) h = ground arith

-- Where no snapshot of a request bears the name of a volume of a request, no state that the
-- requests reach is a deadlock: while a request has not both locked and given back all its names,
-- some request can make a step.
pub Reach-CanStep :
    (requests : ℕ → Request) (is_snapshot : Str → Bool) {s : State} (i : ℕ)
    → ((j : ℕ) → TellsApart is_snapshot (requests j))
    → Reach (start requests) s
    → ¬ (IsFinished (s.threads i))
    → CanStep s
Reach-CanStep requests is_snapshot {s} i apart r unfinished =
    unfinished-CanStep (snapshot_rank is_snapshot) i (s.threads i).wants (s.threads i).holds
      (Reach-Inv requests r)
      (Reach-InOrder (snapshot_rank is_snapshot) requests
        (λ j. TellsApart-Rising is_snapshot (requests j) (apart j)) r)
      2 (λ k. ground arith) refl refl unfinished
