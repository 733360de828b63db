-- ===== src/Tests/Gc.antt =====
-- Three backups of a volume: a full one, and two that follow it.
use zfs_localpv.Prelude.{
  subst, ◌++◌, Str, codes, List, [], ◌∷◌, ◌≡◌, ◌↔◌, refl, sym, ap, ◌∙◌, true, false, Any, contains,
  filter, Bool, inl, inr, if◌then◌else◌,
}
use zfs_localpv.Api.{ZfsBackup, ok}
use zfs_localpv.Zfs.Host.{Ran}
use zfs_localpv.Gc.{IndexFunc, handle_backup_deletion}
use zfs_localpv.Gc.Children.{Indexes, IsChild, IsPlain, handle_backup_deletion-requests}

abbrev first : ZfsBackup
first = record {
  name = codes "b1";
  finalizers = [];
  deleting = false;
  volume_name = codes "pvc-1";
  owner_node_id = codes "n.example";
  snap_name = codes "s1";
  prev_snap_name = [];
  backup_dest = codes "10.0.0.1:9000";
  status = codes "Done";
}

abbrev second : ZfsBackup
second = record first { name = codes "b2"; snap_name = codes "s2"; prev_snap_name = codes "s1" }

abbrev cache : List ZfsBackup
cache = first ∷ second ∷ []

abbrev by_index : IndexFunc → Str → List ZfsBackup
by_index f key = filter (λ b. contains key (f b)) cache

abbrev Cached : ZfsBackup → Type 0
Cached backup = Any (λ b. b ≡ backup) cache

filtered :
    (f : IndexFunc) (key : Str) (backup : ZfsBackup) (backups : List ZfsBackup)
    → Any (λ b. b ≡ backup) (filter (λ b. contains key (f b)) backups)
      ↔ (Any (λ b. b ≡ backup) backups × (contains key (f backup) ≡ true))
filtered f key backup [] = (λ h. absurd h, λ (h, _). h)
filtered f key backup (b ∷ backups) = go (filtered f key backup backups) (contains key (f b)) refl
  where
    go :
        (Any (λ x. x ≡ backup) (filter (λ x. contains key (f x)) backups)
          ↔ (Any (λ x. x ≡ backup) backups × (contains key (f backup) ≡ true)))
        → (found : Bool) → contains key (f b) ≡ found
        → Any
            (λ x. x ≡ backup)
            (if found
              then b ∷ filter (λ x. contains key (f x)) backups
              else filter (λ x. contains key (f x)) backups)
          ↔ (Any (λ x. x ≡ backup) (b ∷ backups) × (contains key (f backup) ≡ true))
    go ih true eq = (to ih eq, from ih)
      where
        to :
            (Any (λ x. x ≡ backup) (filter (λ x. contains key (f x)) backups)
              ↔ (Any (λ x. x ≡ backup) backups × (contains key (f backup) ≡ true)))
            → contains key (f b) ≡ true
            → Any (λ x. x ≡ backup) (b ∷ filter (λ x. contains key (f x)) backups)
            → Any (λ x. x ≡ backup) (b ∷ backups) × (contains key (f backup) ≡ true)
        to ih eq (inl same) = (inl same, ap (λ x. contains key (f x)) (sym same) ∙ eq)
        to ih eq (inr rest) = let (there, found) = ih.0 rest in (inr there, found)

        from :
            (Any (λ x. x ≡ backup) (filter (λ x. contains key (f x)) backups)
              ↔ (Any (λ x. x ≡ backup) backups × (contains key (f backup) ≡ true)))
            → Any (λ x. x ≡ backup) (b ∷ backups) × (contains key (f backup) ≡ true)
            → Any (λ x. x ≡ backup) (b ∷ filter (λ x. contains key (f x)) backups)
        from ih (inl same, found) = inl same
        from ih (inr there, found) = inr (ih.1 (there, found))
    go ih false eq = (
      λ any. let (there, found) = ih.0 any in (inr there, found),
      λ (any, found). elim any [
        | inl same ↦ absurd (let no = ap (λ x. contains key (f x)) (sym same) ∙ eq in cc)
        | inr there ↦ ih.1 (there, found)
      ],
    )

by_index-Indexes : Indexes by_index Cached
by_index-Indexes = record { found_iff = λ f key backup. filtered f key backup cache }

-- the state is the list of the names that were asked to be deleted
abbrev delete : Str → List Str → Ran (List Str) (Unit {0})
delete name s = (ok tt, s ++ name ∷ [])

Cached-IsPlain : (child : ZfsBackup) → Cached child → IsPlain child
Cached-IsPlain child (inl same) = subst IsPlain same (refl, refl, refl)
Cached-IsPlain child (inr (inl same)) = subst IsPlain same (refl, refl, refl)
Cached-IsPlain child (inr (inr none_left)) = elim none_left [ ]

handle_backup_deletion-requests_example :
    (names : List Str) × (handle_backup_deletion by_index delete first [] ≡ [] ++ names)
    × ((name : Str)
        → Any (λ n. n ≡ name) names
          ↔ ((child : ZfsBackup) × Cached child × IsChild child first × (child.name ≡ name)))
handle_backup_deletion-requests_example =
    handle_backup_deletion-requests by_index-Indexes delete (λ s. s) (λ name s. refl) first []
      Cached-IsPlain (refl, refl, refl) refl
