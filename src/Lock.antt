-- ===== src/Lock.antt =====
-- pkg/driver/volume_lock.go: a set of locked names under one mutex, and the requests of the
-- controller that lock one name, or a volume's and then a snapshot's. The mutex makes each round of
-- the loop in `LockVolume` and each unlock one step; `cond.Wait` is a thread that makes none.
pub mod Invariant
pub mod Progress
pub mod Deadlock
use zfs_localpv.Prelude.{
  ℕ, Str, ◌==◌, List, [], ◌∷◌, ◌++◌, ◌≡◌, Bool, true, false, Option, none, some, if◌then◌else◌,
  nat_eq,
}

-- `map[string]struct{}`, as a test for its keys
abbrev pub Locked : Type 0
Locked = Str → Bool

-- a round of the loop in `LockVolume`; `none` where the thread waits
unfoldable pub try_lock : Str → Locked → Option Locked
try_lock volume locked =
    if locked volume then none else some (λ k. if volume == k then true else locked k)

-- the function that `LockVolume` returns
unfoldable pub unlock : Str → Locked → Locked
unlock volume locked k = if volume == k then false else locked k

pub data Request : Type 0 where
  lock_volume : Str → Request
  lock_volume_with_snapshot : Str → Str → Request

-- the names that a request locks, in this order, and unlocks, in this order
unfoldable pub keys : Request → List Str
keys (lock_volume volume) = volume ∷ []
keys (lock_volume_with_snapshot volume snapshot) = volume ∷ snapshot ∷ []

-- what a request has still to lock, and what it holds
pub record Thread : Type 0 where
  pub wants : List Str
  pub holds : List Str

pub record State : Type 0 where
  pub locked : Locked
  pub threads : ℕ → Thread

abbrev pub with_thread : (ℕ → Thread) → ℕ → Thread → ℕ → Thread
with_thread threads i t j = if nat_eq i j then t else threads j

-- request `i` is at work or waits until it holds all its names, and then gives them back one by one
pub data Step (s : State) : State → Type 0 where
  acquire :
      (i : ℕ) (volume : Str) (rest : List Str) (locked : Locked)
      → (s.threads i).wants ≡ volume ∷ rest
      → try_lock volume s.locked ≡ some locked
      → Step s (record {
        locked = locked;
        threads =
            with_thread s.threads i
              (record { wants = rest; holds = (s.threads i).holds ++ volume ∷ [] });
      })
  release :
      (i : ℕ) (volume : Str) (rest : List Str)
      → (s.threads i).wants ≡ []
      → (s.threads i).holds ≡ volume ∷ rest
      → Step s (record {
        locked = unlock volume s.locked;
        threads = with_thread s.threads i (record { wants = []; holds = rest });
      })

pub data Reach (s : State) : State → Type 0 where
  here : Reach s s
  next : {t u : State} → Reach s t → Step t u → Reach s u

-- nothing is locked, and each request has all its names to lock
unfoldable pub start : (ℕ → Request) → State
unfolding keys
start requests = record {
  locked = λ _. false;
  threads = λ i. record { wants = keys (requests i); holds = [] };
}
