-- ===== src/Tests/Node.antt =====
-- A node and an API server to run the operations on: the datasets that are there, and the volume
-- objects.
use zfs_localpv.Prelude.{
  Str, codes, ◌==◌, ==-self, List, [], ◌∷◌, ◌≡◌, refl, ap, sym, ◌∙◌, Bool, true, false, Option,
  none, some, ◌||◌, ◌&&◌, not, if◌then◌else◌, Bool-cases, inl, inr, contains,
}
use zfs_localpv.Api.{ZfsVolume, ZfsSnapshot, ok, err, plain}
use zfs_localpv.Zfs.Args.{volume_path}
use zfs_localpv.Zfs.Args.Parse.{flag, read}
use zfs_localpv.Zfs.Host.{
  Ran, succeeded, Exec, zfs, target, makers, below, destroy_args, ZfsCommand,
}
use zfs_localpv.Mgmt.Snapshots.{SnapshotStore}
use zfs_localpv.Mgmt.Server.{no_finalizers, VolumeStore}
use zfs_localpv.Tests.Volumes.{thick}

abbrev pub Node : Type 0 → Type 0
Node Object = (Str → Bool) × (Str → Option Object)

abbrev first_of : List Str → Str
first_of [] = []
first_of (a ∷ _) = a

unfoldable pub run : {Object : Type 0} → Exec (Node Object)
unfolding ◌==◌ below
run command [] s = (ok [], s)
run command (verb ∷ args) s =
    let name = target (read flag args).operands in
    if contains verb makers
    then (ok [], (λ other. name == other || s.0 other, s.1))
    else if verb == codes "list"
    then if s.0 (first_of args) then (ok [], s) else (err plain, s)
    else if verb == codes "destroy"
    then (ok [], (λ other. s.0 other && not (below (target args) other), s.1))
    else (ok [], s)

abbrev pub there : {Object : Type 0} → Node Object → Str → Bool
there s name = s.0 name

run-list :
    {Object : Type 0} (s : Node Object) (name : Str)
    → run zfs (codes "list" ∷ name ∷ []) s ≡ (if s.0 name then (ok [], s) else (err plain, s))
unfolding run ◌==◌
run-list s name = refl

run-destroy :
    {Object : Type 0} (s : Node Object) (recursive : Bool) (name : Str)
    → run zfs (destroy_args recursive name) s
      ≡ (ok [], (λ other. s.0 other && not (below name other), s.1))
unfolding run ◌==◌ below
run-destroy s true name = refl
run-destroy s false name = refl

pub run-found :
    {Object : Type 0} (s : Node Object) (name : Str)
    → succeeded (run zfs (codes "list" ∷ name ∷ []) s) ≡ s.0 name
run-found s name = elim (Bool-cases (s.0 name)) [
  | inl h ↦ ap succeeded (run-list s name) ∙ rw h refl
  | inr h ↦ ap succeeded (run-list s name) ∙ rw h refl
]

run-lists :
    {Object : Type 0} (s : Node Object) (name : Str)
    → succeeded (run zfs (codes "list" ∷ name ∷ []) s) ≡ true
    → s.0 name ≡ true
run-lists s name h = sym (run-found s name) ∙ h

run-maker :
    {Object : Type 0} (s : Node Object) (verb : Str) (args : List Str)
    → contains verb makers ≡ true
    → run zfs (verb ∷ args) s
      ≡ (ok [], (λ other. target (read flag args).operands == other || s.0 other, s.1))
unfolding run
run-maker s verb args maker = rw maker refl

below_self : (name : Str) → below name name ≡ true
unfolding below
below_self name = rw (==-self name) refl

and_false : (b : Bool) → (b && false) ≡ false
and_false true = refl
and_false false = refl

and_true : (b : Bool) → (b && true) ≡ b
and_true true = refl
and_true false = refl

pub run-ZfsCommand : {Object : Type 0} → ZfsCommand (run {Object = Object}) there
run-ZfsCommand = record {
  list_there = λ s name h. run-lists s name h;
  list_reads = λ s name. elim (Bool-cases (s.0 name)) [
    | inl h ↦ ap (λ r. r.1) (run-list s name) ∙ rw h refl
    | inr h ↦ ap (λ r. r.1) (run-list s name) ∙ rw h refl
  ];
  maker_exists = λ s verb args other maker. rw (run-maker s verb args maker) refl;
  destroy_target =
      λ s recursive name h. rw (run-destroy s recursive name, below_self name) (and_false _);
  destroy_others =
      λ s recursive name other one h. rw (run-destroy s recursive name, h) (and_true _);
  destroy_missing = λ s recursive name other h. rw (run-destroy s recursive name, h) refl;
}

-- no command for the filesystem's UUID touches a dataset
abbrev pub renew : {Object : Type 0} → Str → Str → Node Object → Ran (Node Object) (Unit {0})
renew fs_type device s = (ok tt, s)

unfoldable pub write : ZfsVolume → Node ZfsVolume → Ran (Node ZfsVolume) (Unit {0})
write vol s = (
  ok tt,
  (
    s.0,
    λ name.
        if name == vol.name
        then if vol.deleting && no_finalizers vol.finalizers then none else some vol
        else s.1 name,
  ),
)

abbrev pub object : {Object : Type 0} → Node Object → Str → Option Object
object s name = s.1 name

run-object :
    {Object : Type 0} (command : Str) (args : List Str) (s : Node Object) (name : Str)
    → object (run command args s).1 name ≡ object s name
unfolding run
run-object command [] s name = refl
run-object command (verb ∷ args) s name = elim (Bool-cases (contains verb makers)) [
  | inl h ↦ rw h refl
  | inr h ↦ elim (Bool-cases (verb == codes "list")) [
    | inl g ↦ elim (Bool-cases (s.0 (first_of args))) [
      | inl f ↦ rw (h, g, f) refl
      | inr f ↦ rw (h, g, f) refl
    ]
    | inr g ↦ elim (Bool-cases (verb == codes "destroy")) [
      | inl f ↦ rw (h, g, f) refl
      | inr f ↦ rw (h, g, f) refl
    ]
  ]
]

pub write-VolumeStore : VolumeStore run there write object
unfolding write
write-VolumeStore = record {
  update_stored = λ vol s h. rw (==-self vol.name) refl;
  update_exists = λ vol s name. refl;
  exec_stored = run-object;
}

-- a node with the pool alone
abbrev pub empty_node : Node ZfsVolume
empty_node = (λ name. name == codes "tank/k8s", λ _. none)

-- and one with the volume `thick` too
abbrev pub full_node : Node ZfsVolume
full_node = (λ name. name == codes "tank/k8s" || name == volume_path thick, λ _. some thick)

unfoldable pub write_snapshot : ZfsSnapshot → Node ZfsSnapshot → Ran (Node ZfsSnapshot) (Unit {0})
write_snapshot snap s =
    let kept = if snap.deleting && no_finalizers snap.finalizers then none else some snap in
    (ok tt, (s.0, λ name. if name == snap.name then kept else s.1 name))

pub write_snapshot-SnapshotStore :
    SnapshotStore run (there {Object = ZfsSnapshot}) write_snapshot object
unfolding write_snapshot
write_snapshot-SnapshotStore = record {
  update_stored = λ snap s h. rw (==-self snap.name) refl;
  update_exists = λ snap s name. refl;
  exec_stored = run-object;
}

-- a node with the pool and the volume `pvc-1`, and no snapshot objects
abbrev pub bare_node : Node ZfsSnapshot
bare_node = (λ name. name == codes "tank/k8s" || name == volume_path thick, λ _. none)

-- a node with the pool and a snapshot of `pvc-1`
abbrev pub snapped_node : Node ZfsSnapshot
snapped_node = (λ name. name == codes "tank/k8s" || name == codes "tank/k8s/pvc-1@s", λ _. none)
