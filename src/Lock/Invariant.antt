-- ===== src/Lock/Invariant.antt =====
-- Which requests hold which names.
use zfs_localpv.Prelude.{
  ℕ, Str, ◌==◌, ==_iff, List, [], ◌∷◌, ◌++◌, ◌≡◌, refl, true, false, arith, some, contains, nat_eq,
  if◌then◌else◌, ◌||◌, ◌&&◌, not, inl, inr, Bool-cases, ap, sym, ◌∙◌,
}
use mathlib.Core.Option.{Option, none}
use mathlib.Core.Bool.{false≢true}
use zfs_localpv.Lock.{
  Locked, State, Step, acquire, release, Reach, here, next, start, try_lock, unlock, with_thread,
  Request,
}

abbrev pub Holds : State → ℕ → Str → Type 0
Holds s i k = contains k (s.threads i).holds ≡ true

abbrev pub Once : List Str → Type 0
Once [] = Unit
Once (k ∷ ks) = (contains k ks ≡ false) × Once ks

pub record Inv (s : State) : Type 0 where
  pub held_locked : (i : ℕ) (k : Str) → Holds s i k → s.locked k ≡ true
  pub locked_held : (k : Str) → s.locked k ≡ true → (i : ℕ) × Holds s i k
  pub exclusive : (i j : ℕ) (k : Str) → Holds s i k → Holds s j k → i ≡ j
  pub once : (i : ℕ) → Once (s.threads i).holds

contains-concat :
    (k v : Str) (ks : List Str) → contains k (ks ++ v ∷ []) ≡ (contains k ks || v == k)
contains-concat k v [] = ground arith
contains-concat k v (x ∷ ks) = ground (arith, contains-concat k v ks)

Once-concat : (v : Str) (ks : List Str) → Once ks → contains v ks ≡ false → Once (ks ++ v ∷ [])
Once-concat v [] h n = (refl, tt)
Once-concat v (k ∷ ks) h n =
    ground (arith, Once-concat v ks h.1, contains-concat k v ks, ==_iff v k, ==_iff k v)

abbrev get_or_id : Option Locked → Locked
get_or_id none k = false
get_or_id (some m) k = m k

try_lock-some :
    (v : Str) (locked : Locked) {l : Locked}
    → try_lock v locked ≡ some l
    → (locked v ≡ false) × ((k : Str) → l k ≡ (if v == k then true else locked k))
unfolding try_lock
try_lock-some v locked h = (ground arith, λ k. ground (arith, ap (λ m. get_or_id m k) h))

module _ {s : State} (inv : Inv s) (i : ℕ) (v : Str) (rest : List Str) (l : Locked)
    (free : s.locked v ≡ false)
    (l_eq : (k : Str) → l k ≡ (if v == k then true else s.locked k)) where
  abbrev acquired : State
  acquired = record {
    locked = l;
    threads =
        with_thread s.threads i (record { wants = rest; holds = (s.threads i).holds ++ v ∷ [] });
  }

  not_held : (j : ℕ) → contains v (s.threads j).holds ≡ false
  not_held j = ground (arith, inv.held_locked j v)

  acquired_holds :
      (j : ℕ) (k : Str)
      → contains k (acquired.threads j).holds
        ≡ (contains k (s.threads j).holds || (nat_eq i j && v == k))
  acquired_holds j k = ground (arith, contains-concat k v (s.threads i).holds)

  acquired-Inv : Inv acquired
  acquired-Inv = record {
    held_locked = λ j k h. ground (arith, acquired_holds j k, inv.held_locked j k, l_eq k);
    locked_held = λ k h. elim (Bool-cases (v == k)) [
      | inl e ↦ (i, acquired_holds i k ∙ ground (arith, e))
      | inr e ↦
          let (j, held) = inv.locked_held k (sym (l_eq k ∙ rw e) ∙ h) in
          (j, acquired_holds j k ∙ rw held)
    ];
    exclusive = λ j j' k h h'. ground (
      arith,
      acquired_holds j k,
      acquired_holds j' k,
      inv.exclusive j j' k,
      not_held j,
      not_held j',
      ==_iff v k,
    );
    once = λ j.
        ground (arith, inv.once j, Once-concat v (s.threads i).holds (inv.once i) (not_held i));
  }

module _ {s : State} (inv : Inv s) (i : ℕ) (v : Str) (rest : List Str)
    (held : (s.threads i).holds ≡ v ∷ rest) where
  abbrev released : State
  released = record {
    locked = unlock v s.locked;
    threads = with_thread s.threads i (record { wants = []; holds = rest });
  }

  released_holds :
      (j : ℕ) (k : Str)
      → contains k (released.threads j).holds
        ≡ (contains k (s.threads j).holds && not (nat_eq i j && v == k))
  released_holds j k = ground (arith, held, inv.once i, ==_iff v k)

  released-Inv : Inv released
  unfolding unlock
  released-Inv = record {
    held_locked = λ j k h.
        ground
          (arith, released_holds j k, inv.held_locked j k, held, inv.exclusive i j k, ==_iff v k);
    locked_held = λ k h.
        let (j, had) = inv.locked_held k (ground arith) in
        (j, released_holds j k ∙ ground (arith, had));
    exclusive = λ j j' k h h'.
        inv.exclusive j j' k (ground (arith, released_holds j k))
          (ground (arith, released_holds j' k));
    once = λ j. ground (arith, inv.once j, inv.once i, held);
  }

pub Step-Inv : {s t : State} → Step s t → Inv s → Inv t
Step-Inv (acquire i v rest l w e) inv =
    let (free, l_eq) = try_lock-some v _ e in acquired-Inv inv i v rest l free l_eq
Step-Inv (release i v rest w h) inv = released-Inv inv i v rest h

start-Inv : (requests : ℕ → Request) → Inv (start requests)
unfolding start
start-Inv requests = record {
  held_locked = λ i k h. cc;
  locked_held = λ k h. absurd (false≢true h);
  exclusive = λ i j k h h'. cc;
  once = λ i. tt;
}

-- In every state that the requests reach, whatever the order of their steps, a name is locked
-- exactly while some request holds it, and no name is held by two requests.
pub Reach-Inv : (requests : ℕ → Request) {s : State} → Reach (start requests) s → Inv s
Reach-Inv requests here = start-Inv requests
Reach-Inv requests (next r st) = Step-Inv st (Reach-Inv requests r)
