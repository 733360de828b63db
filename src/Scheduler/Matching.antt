-- ===== src/Scheduler/Matching.antt =====
-- What `maxFreePool` answers, without a word of how it looks for it.
use zfs_localpv.Prelude.{
  Str, List, [], ◌∷◌, ◌≡◌, ◌≢◌, ◌↔◌, refl, sym, subst, ◌||◌, ap, ◌∙◌, Bool, true, false, ◌&&◌, not,
  is_empty, any, Any, All, Any-map, All-Any, Bool-cases, inl, inr, arith,
}
use zfs_localpv.Prelude.Int.{ℤ, ltb_ℤ, ◌≤ℤ◌}
use zfs_localpv.Api.{ZfsNode}
use zfs_localpv.Scheduler.{Pattern, max_free_pool}
use zfs_localpv.Scheduler.Roomiest.{Matches, max_free_pool-Any, max_free_pool-All}

-- Every pool has a name.
abbrev pub IsNamed : ZfsNode → Type 0
IsNamed node = All (λ p. p.name ≢ []) node.pools

-- a pool of the node matches
abbrev pub has_match : Pattern → ZfsNode → Bool
has_match match node = any (λ p. match p.name) node.pools

-- a matching pool of the node has more than `size` bytes free
abbrev pub has_room : Pattern → ℤ → ZfsNode → Bool
has_room match size node = any (λ p. match p.name && ltb_ℤ size p.free) node.pools

any_iff : {A : Type 0} (f : A → Bool) (xs : List A) → (any f xs ≡ true) ↔ Any (λ x. f x ≡ true) xs
any_iff f [] = (λ h. cc, λ h. absurd h)
any_iff f (x ∷ xs) =
    let (to, from) = any_iff f xs in
    elim (Bool-cases (f x)) [
      | inl h ↦ (λ _. inl h, λ _. rw h refl)
      | inr h ↦ (
        λ found. inr (to (subst (λ b. (b || any f xs) ≡ true) h found)),
        λ there. elim there [
          | inl here ↦ absurd (let no : true ≡ false = sym here ∙ h in cc)
          | inr rest ↦ rw h (from rest)
        ],
      )
    ]

same_bool : (a b : Bool) → ((a ≡ true) ↔ (b ≡ true)) → a ≡ b
same_bool true b (to, from) = sym (to refl)
same_bool false true (to, from) = from refl
same_bool false false (to, from) = refl

full_iff : (s : Str) → (not (is_empty s) ≡ true) ↔ (s ≢ [])
full_iff [] = (λ h. cc, λ h. absurd (h refl))
full_iff (c ∷ s) = (λ h e. cc, λ h. refl)

module _ (match : Pattern) (node : ZfsNode) (named : IsNamed node) where
  abbrev most : Str × ℤ
  most = max_free_pool node.pools match

  pub max_free_pool-has_match : not (is_empty most.0) ≡ has_match match node
  max_free_pool-has_match = same_bool _ _ (
    λ full. (any_iff (λ p. match p.name) node.pools).1 (
        Any-map node.pools (λ p h. h.0)
          (max_free_pool-Any match node.pools named ((full_iff most.0).0 full))),
    λ found. (full_iff most.0).1 (
        All-Any node.pools (max_free_pool-All match node.pools named)
          ((any_iff (λ p. match p.name) node.pools).0 found) (λ p best here. (best here).0)),
  )

  pub max_free_pool-has_room :
      (size : ℤ) → (not (is_empty most.0) && ltb_ℤ size most.1) ≡ has_room match size node
  max_free_pool-has_room size = same_bool _ _ (
    λ h.
        let full : not (is_empty most.0) ≡ true = ground arith in
        let more : ltb_ℤ size most.1 ≡ true = ground arith in
        (any_iff (λ p. match p.name && ltb_ℤ size p.free) node.pools).1 (
          Any-map node.pools
            (λ p here.
              let free : ltb_ℤ size p.free ≡ true = ap (λ m. ltb_ℤ size m.1) (sym here.1) ∙ more in
              rw (here.0, free) refl)
            (max_free_pool-Any match node.pools named ((full_iff most.0).0 full))),
    λ found.
        All-Any node.pools (max_free_pool-All match node.pools named)
          ((any_iff (λ p. match p.name && ltb_ℤ size p.free) node.pools).0 found)
          (λ p best here.
            let matches : match p.name ≡ true = ground arith in
            let (full, top) = best matches in
            let filled = (full_iff most.0).1 full in
            let more : ltb_ℤ size most.1 ≡ true = ground arith in rw (filled, more) refl),
  )

  -- the most that a matching pool of the node has free
  pub max_free_pool-Roomiest :
      (free : ℤ)
      → Any (λ p. Matches match p × (p.free ≡ free)) node.pools
      → All (λ p. Matches match p → p.free ≤ℤ free) node.pools
      → (not (is_empty most.0) ≡ true) × (most.1 ≡ free)
  max_free_pool-Roomiest free there top =
      All-Any node.pools (max_free_pool-All match node.pools named) there (λ p best here.
        let (full, above) = best here.0 in
        let below : most.1 ≤ℤ free =
          All-Any node.pools top (max_free_pool-Any match node.pools named full) (λ q limit found.
            let lim = limit found.0 in
            let eq : most.1 ≡ q.free = ap (λ m. m.1) found.1 in rw eq lim) in
        let eq = here.1 in ((full_iff most.0).1 full, ground arith))
