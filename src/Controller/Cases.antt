-- ===== src/Controller/Cases.antt =====
-- The outcomes of a chain of calls, each proved from the outcomes of its calls.
use zfs_localpv.Prelude.{Str, ◌≡◌, refl, Bool, true, false, if◌then◌else◌, inl, inr, Option}
use zfs_localpv.Api.{ok, err, Code, Error, status, object_not_found, plain, panicked, still_waiting}
use zfs_localpv.Zfs.Host.{Ran, ◌>>◌, succeeded}
use zfs_localpv.Controller.Server.{or_status, wrapped, unless_missing, Wrote}

pub if-cases :
    {A : Type 0} (P : A → Type 0) (b : Bool) (x y : A)
    → (b ≡ true → P x)
    → (b ≡ false → P y)
    → P (if b then x else y)
if-cases P true x y yes_case no_case = yes_case refl
if-cases P false x y yes_case no_case = no_case refl

module _ {S A : Type 0} where
  pub then-cases :
      {B : Type 0} (P : Ran S B → Type 0) (ran : Ran S A) (next : A → S → Ran S B)
      → ((a : A) → ran.0 ≡ ok a → P (next a ran.1))
      → ((e : Error) → P (err e, ran.1))
      → P (ran >> next)
  then-cases P (ok a, s) next good bad = good a refl
  then-cases P (err e, s) next good bad = bad e

  pub or_status-cases :
      {B : Type 0} (P : Ran S B → Type 0) (code : Code) (ran : Ran S A) (next : A → S → Ran S B)
      → ((a : A) → ran.0 ≡ ok a → P (next a ran.1))
      → ((e : Error) → P (err e, ran.1))
      → P (or_status code ran >> next)
  or_status-cases P code (ok a, s) next good bad = good a refl
  or_status-cases P code (err e, s) next good bad = bad (status code)

  pub unless_missing-cases :
      (P : Ran S (Unit {0}) → Type 0) (ran : Ran S A) (act : A → S → Ran S (Unit {0}))
      → ((a : A) → ran.0 ≡ ok a → P (act a ran.1))
      → (ran.0 ≡ err object_not_found → P (ok tt, ran.1))
      → ((e : Error) → P (err e, ran.1))
      → P (unless_missing ran act)
  unless_missing-cases P (ok a, s) act found missing bad = found a refl
  unless_missing-cases P (err object_not_found, s) act found missing bad = missing refl
  unless_missing-cases P (err (status c), s) act found missing bad = bad plain
  unless_missing-cases P (err plain, s) act found missing bad = bad plain
  unless_missing-cases P (err panicked, s) act found missing bad = bad plain
  unless_missing-cases P (err still_waiting, s) act found missing bad = bad plain

  pub wrapped-cases :
      (P : Ran S A → Type 0) (ran : Ran S A)
      → ((a : A) → ran.0 ≡ ok a → P (ok a, ran.1))
      → ((e : Error) → succeeded ran ≡ false → P (err e, ran.1))
      → P (wrapped ran)
  wrapped-cases P (ok a, s) good bad = good a refl
  wrapped-cases P (err e, s) good bad = bad plain refl

pub succeeded-ok : {S A : Type 0} (ran : Ran S A) (a : A) → ran.0 ≡ ok a → succeeded ran ≡ true
succeeded-ok (ok a, s) b h = refl
succeeded-ok (err e, s) b h = cc

-- What a call that wrote one object leaves of it.
pub Wrote-ok :
    {S A : Type 0} (stored : S → Str → Option A) (name : Str) (after : Option A) (s : S)
    (ran : Ran S (Unit {0}))
    → Wrote stored name after s ran
    → succeeded ran ≡ true
    → stored ran.1 name ≡ after
Wrote-ok stored name after s ran (others, inl h) good = h
Wrote-ok stored name after s ran (others, inr (bad, h)) good = cc
