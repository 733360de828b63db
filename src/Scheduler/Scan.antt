-- ===== src/Scheduler/Scan.antt =====
-- The selection loops keep a name and a key and replace both when a pool is strictly better. Here
-- is what such a loop has selected, for any test and any order; `Roomiest` and `Lightest` apply it.
use zfs_localpv.Prelude.{
  Str, List, [], ◌∷◌, ◌++◌, ◌≡◌, ◌≢◌, refl, ap, ◌⊎◌, inl, inr, All, Any, All-map, All-append,
  All-middle, Any-middle, subst,
}
use zfs_localpv.Prelude.Int.{ℤ}
use zfs_localpv.Api.{Pool}

module _ (Q : Pool → Type 0) (key : Pool → ℤ) (Better Fair : ℤ → ℤ → Type 0) where
  -- Nothing in `pools` was better than the start.
  pub record Kept (st : Str × ℤ) (pools : List Pool) (out : Str × ℤ) : Type 0 where
    pub same_name : out.0 ≡ st.0
    pub same_key : out.1 ≡ st.1
    pub fair : All (λ q. Q q → (st.0 ≢ []) × Fair st.1 (key q)) pools

  -- The first of the best pools was taken.
  pub record Took (st : Str × ℤ) (pools : List Pool) (out : Str × ℤ) : Type 0 where
    pub front : List Pool
    pub pool : Pool
    pub back : List Pool
    pub split : pools ≡ front ++ pool ∷ back
    pub passes : Q pool
    pub its_name : out.0 ≡ pool.name
    pub its_key : out.1 ≡ key pool
    pub beats_front : All (λ q. Q q → Better (key pool) (key q)) front
    pub fair_to_back : All (λ q. Q q → Fair (key pool) (key q)) back
    pub beats_start : st.0 ≢ [] → Better (key pool) st.1

  abbrev pub Outcome : Str × ℤ → List Pool → Str × ℤ → Type 0
  Outcome st pools out = Kept st pools out ⊎ Took st pools out

  -- what one round does
  abbrev pub Round : Str × ℤ → Pool → Str × ℤ → Type 0
  Round st p out =
      ((out ≡ st) × (Q p → (st.0 ≢ []) × Fair st.1 (key p)))
      ⊎ ((out ≡ (p.name, key p)) × Q p × (st.0 ≢ [] → Better (key p) st.1))

  module _ (better-fair : (a b c : ℤ) → Better a b → Fair b c → Better a c)
      (better-better : (a b c : ℤ) → Better a b → Better b c → Better a c) where
    kept_round :
        (st : Str × ℤ) (p : Pool) (pools : List Pool) (out : Str × ℤ)
        → (Q p → (st.0 ≢ []) × Fair st.1 (key p))
        → Outcome st pools out
        → Outcome st (p ∷ pools) out
    kept_round st p pools out h (inl k) =
        inl (record { same_name = k.same_name; same_key = k.same_key; fair = (h, k.fair) })
    kept_round st p pools out h (inr t) = inr (record {
      front = p ∷ t.front;
      pool = t.pool;
      back = t.back;
      split = ap (λ l. p ∷ l) t.split;
      passes = t.passes;
      its_name = t.its_name;
      its_key = t.its_key;
      beats_front = (
        λ q. better-fair (key t.pool) st.1 (key p) (t.beats_start (h q).0) (h q).1,
        t.beats_front,
      );
      fair_to_back = t.fair_to_back;
      beats_start = t.beats_start;
    })

    took_round :
        (st : Str × ℤ) (p : Pool) (pools : List Pool) (out : Str × ℤ)
        → p.name ≢ []
        → Q p
        → (st.0 ≢ [] → Better (key p) st.1)
        → Outcome (p.name, key p) pools out
        → Outcome st (p ∷ pools) out
    took_round st p pools out named q h (inl k) = inr (record {
      front = [];
      pool = p;
      back = pools;
      split = refl;
      passes = q;
      its_name = k.same_name;
      its_key = k.same_key;
      beats_front = tt;
      fair_to_back = All-map pools (λ q f x. (f x).1) k.fair;
      beats_start = h;
    })
    took_round st p pools out named q h (inr t) = inr (record {
      front = p ∷ t.front;
      pool = t.pool;
      back = t.back;
      split = ap (λ l. p ∷ l) t.split;
      passes = t.passes;
      its_name = t.its_name;
      its_key = t.its_key;
      beats_front = (λ _. t.beats_start named, t.beats_front);
      fair_to_back = t.fair_to_back;
      beats_start = λ n. better-better (key t.pool) (key p) st.1 (t.beats_start named) (h n);
    })

    pub Round-Outcome :
        (st : Str × ℤ) (p : Pool) (mid : Str × ℤ) (pools : List Pool) (out : Str × ℤ)
        → p.name ≢ []
        → Round st p mid
        → Outcome mid pools out
        → Outcome st (p ∷ pools) out
    Round-Outcome st p mid pools out named (inl (e, h)) o =
        kept_round st p pools out h (subst (λ m. Outcome m pools out) e o)
    Round-Outcome st p mid pools out named (inr (e, q, h)) o =
        took_round st p pools out named q h (subst (λ m. Outcome m pools out) e o)

  -- No pool passes, or the first of the best ones is the result.
  abbrev pub FirstBest : ℤ → List Pool → Str × ℤ → Type 0
  FirstBest z pools out =
      (All (λ q. ¬ (Q q)) pools × (out ≡ ([], z)))
      ⊎ ((front : List Pool) × (p : Pool) × (back : List Pool) × (pools ≡ front ++ p ∷ back)
          × Q p
          × (out ≡ (p.name, key p))
          × All (λ q. Q q → Better (key p) (key q)) front
          × All (λ q. Q q → Fair (key p) (key q)) back)

  pub Outcome-FirstBest :
      (z : ℤ) (pools : List Pool) (out : Str × ℤ)
      → Outcome ([], z) pools out
      → FirstBest z pools out
  Outcome-FirstBest z pools out (inl k) =
      inl (All-map pools (λ q f x. (f x).0 refl) k.fair, cc (k.same_name, k.same_key))
  Outcome-FirstBest z pools out (inr t) = inr (
    t.front,
    t.pool,
    t.back,
    t.split,
    t.passes,
    cc (t.its_name, t.its_key),
    t.beats_front,
    t.fair_to_back,
  )

  -- Two consequences that name no position.
  pub FirstBest-Any :
      (z : ℤ) (pools : List Pool) (out : Str × ℤ)
      → FirstBest z pools out
      → out.0 ≢ []
      → Any (λ p. Q p × (out ≡ (p.name, key p))) pools
  FirstBest-Any z pools out (inl (_, e)) n = absurd (n (ap (λ o. o.0) e))
  FirstBest-Any z pools out (inr (front, p, back, split, q, e, _, _)) n =
      rw split (Any-middle _ front p back (q, e))

  pub FirstBest-All :
      (z : ℤ) (pools : List Pool) (out : Str × ℤ)
      → ((a b : ℤ) → Better a b → Fair a b)
      → ((a : ℤ) → Fair a a)
      → All (λ p. p.name ≢ []) pools
      → FirstBest z pools out
      → All (λ q. Q q → (out.0 ≢ []) × Fair out.1 (key q)) pools
  FirstBest-All z pools out weaken self named (inl (none_passes, _)) =
      All-map pools (λ q n h. absurd (n h)) none_passes
  FirstBest-All z pools out weaken self named (inr (front, p, back, split, _, e, before, after)) =
      let n : p.name ≢ [] =
        All-middle (λ r. r.name ≢ []) front p back (subst (All (λ r. r.name ≢ [])) split named) in
      rw (split, e)
        (All-append _ front (p ∷ back)
          (All-map front (λ q f h. (n, weaken (key p) (key q) (f h))) before)
          (λ _. (n, self (key p)), All-map back (λ q f h. (n, f h)) after))
