-- ===== src/Tests/Named.antt =====
-- Objects in a list, by their names.
use zfs_localpv.Prelude.{
  Str, ◌==◌, ==_iff, List, [], ◌∷◌, ◌≡◌, refl, ap, ◌∙◌, Bool, true, false, Option, none, some,
  if◌then◌else◌, map, arith,
}

module _ {A : Type 0} (name_of : A → Str) where
  unfoldable pub find : Str → List A → Option A
  find name [] = none
  find name (x ∷ xs) = if name_of x == name then some x else find name xs

  unfoldable pub drop_named : Str → List A → List A
  drop_named name [] = []
  drop_named name (x ∷ xs) =
      if name_of x == name then drop_named name xs else x ∷ drop_named name xs

  unfoldable pub set : Str → Option A → List A → List A
  unfolding drop_named
  set name none xs = drop_named name xs
  set name (some x) xs = x ∷ drop_named name xs

  pub find-name : (name : Str) (xs : List A) (x : A) → find name xs ≡ some x → name_of x ≡ name
  unfolding find
  find-name name [] x h = cc
  find-name name (y ∷ xs) x h =
      let ih = find-name name xs x in ground (arith, ==_iff (name_of y) name)

  find-drop_named :
      (name other : Str) (xs : List A)
      → find other (drop_named name xs) ≡ (if name == other then none else find other xs)
  unfolding find drop_named
  find-drop_named name other [] = ground arith
  find-drop_named name other (x ∷ xs) =
      let ih = find-drop_named name other xs in
      ground (arith, ==_iff (name_of x) name, ==_iff (name_of x) other, ==_iff name other)

  pub find-set :
      (name : Str) (after : Option A) (xs : List A)
      → ((x : A) → after ≡ some x → name_of x ≡ name)
      → ((other : Str) → (name == other) ≡ false → find other (set name after xs) ≡ find other xs)
        × (find name (set name after xs) ≡ after)
  unfolding find set
  find-set name none xs named = (
    λ other apart. find-drop_named name other xs ∙ rw apart refl,
    find-drop_named name name xs ∙ ground (arith, ==_iff name name),
  )
  find-set name (some x) xs named =
      let same = named x refl in
      (
        λ other apart. rw (same, apart) (find-drop_named name other xs ∙ rw apart refl),
        ground (arith, ==_iff (name_of x) name),
      )

  -- A change of every object that keeps its name.
  pub find-map :
      (f : A → A) (name : Str) (xs : List A) (x : A)
      → ((y : A) → name_of (f y) ≡ name_of y)
      → find name (map f xs) ≡ some x
      → (before : A) × (find name xs ≡ some before) × (x ≡ f before)
  unfolding find
  find-map f name [] x keeps h = cc
  find-map f name (y ∷ xs) x keeps h =
      go (λ match. find-map f name xs x keeps match) (name_of y == name) (name_of (f y) == name)
        refl same h
    where
      same : (name_of (f y) == name) ≡ (name_of y == name)
      same = ap (λ n. n == name) (keeps y)

      go :
          (find name (map f xs) ≡ some x
            → (before : A) × (find name xs ≡ some before) × (x ≡ f before))
          → (first second : Bool) → (name_of y == name) ≡ first
          → second ≡ (name_of y == name)
          → (if second then some (f y) else find name (map f xs)) ≡ some x
          → (before : A) × ((if name_of y == name then some y else find name xs) ≡ some before)
            × (x ≡ f before)
      go ih true true eq match h = (y, rw eq refl, cc)
      go ih true false eq match h = cc
      go ih false true eq match h = cc
      go ih false false eq match h = let (before, there, one) = ih h in (before, rw eq there, one)
