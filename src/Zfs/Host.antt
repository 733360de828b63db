-- ===== src/Zfs/Host.antt =====
-- What the node agent acts on. The commands that it runs and the API server are parameters; this
-- file says what zfs(8) documents of `zfs list`, `create`, `clone`, `snapshot` and `destroy`, as
-- far as the driver relies on it. An operation maps the state of all that lies outside the driver
-- to its result and the state that it leaves.
use zfs_localpv.Prelude.{
  Str, codes, ◌==◌, List, [], ◌∷◌, ◌++◌, ◌≡◌, Bool, true, false, ◌||◌, ◌&&◌, contains, not, any,
  nat_eq,
}
use zfs_localpv.Api.{Result, ok, err}
use zfs_localpv.Zfs.Args.Parse.{flag, read}

abbrev pub Ran : Type 0 → Type 0 → Type 0
Ran S A = Result A × S

infixl 5 ◌>>◌
-- `x, err := ...; if err != nil { return err }`
abbrev pub ◌>>◌ : {S A B : Type 0} → Ran S A → (A → S → Ran S B) → Ran S B
(ok a, s) >> f = f a s
(err e, s) >> f = (err e, s)

-- only whether it failed
abbrev pub done : {S A : Type 0} → Ran S A → Ran S (Unit {0})
done (ok a, s) = (ok tt, s)
done (err e, s) = (err e, s)

abbrev pub succeeded : {S A : Type 0} → Ran S A → Bool
succeeded (ok a, s) = true
succeeded (err e, s) = false

-- `exec.Command(name, args...)` with its combined output, where a failure is `NewZFSError`
abbrev pub Exec : Type 0 → Type 0
Exec S = Str → List Str → S → Ran S Str

abbrev pub zfs : Str
zfs = codes "zfs"

abbrev pub starts_with : Str → Str → Bool
starts_with [] s = true
starts_with (a ∷ prefix) [] = false
starts_with (a ∷ prefix) (b ∷ s) = (a ∷ [] == b ∷ []) && starts_with prefix s

-- what `zfs destroy -r` may remove: the dataset, what lies below it, and snapshots of these
unfoldable pub below : Str → Str → Bool
below name other =
    name == other || starts_with (name ++ codes "/") other || starts_with (name ++ codes "@") other

-- the last operand
abbrev pub target : List Str → Str
target [] = []
target (name ∷ []) = name
target (first ∷ name ∷ names) = target (name ∷ names)

-- the subcommands that make the dataset or the snapshot that their last operand names
abbrev pub makers : List Str
makers = codes "create" ∷ codes "clone" ∷ codes "snapshot" ∷ []

abbrev pub destroy_args : Bool → Str → List Str
destroy_args true name = codes "destroy" ∷ codes "-r" ∷ name ∷ []
destroy_args false name = codes "destroy" ∷ name ∷ []

-- An operand that names one dataset or snapshot: "," and "%" list snapshots, and `-r` with a snapshot
-- takes the snapshots of that name further down.
abbrev pub names_one : Bool → Str → Bool
names_one recursive name =
    not (any (λ c. nat_eq c b',' || nat_eq c b'%' || recursive && nat_eq c b'@') name)

-- `exists s name`: the dataset or snapshot `name` is there.
pub record ZfsCommand {S : Type 0} (exec : Exec S) (exists : S → Str → Bool) : Type 0 where
  -- What `zfs list NAME` finds is there, and it changes nothing. It may fail for what is there.
  pub list_there :
      (s : S) (name : Str)
      → succeeded (exec zfs (codes "list" ∷ name ∷ []) s) ≡ true
      → exists s name ≡ true
  pub list_reads : (s : S) (name : Str) → (exec zfs (codes "list" ∷ name ∷ []) s).1 ≡ s
  -- A maker that succeeds makes its target and nothing else; one that fails makes nothing.
  pub maker_exists :
      (s : S) (verb : Str) (args : List Str) (other : Str)
      → contains verb makers ≡ true
      → exists (exec zfs (verb ∷ args) s).1 other ≡ (
          succeeded (exec zfs (verb ∷ args) s) && target (read flag args).operands == other
          || exists s other)
  -- `zfs destroy`, with no flag or with `-r`, makes nothing, removes its target if it succeeds, and
  -- leaves alone what does not lie below.
  pub destroy_target :
      (s : S) (recursive : Bool) (name : Str)
      → succeeded (exec zfs (destroy_args recursive name) s) ≡ true
      → exists (exec zfs (destroy_args recursive name) s).1 name ≡ false
  pub destroy_others :
      (s : S) (recursive : Bool) (name other : Str)
      → names_one recursive name ≡ true
      → below name other ≡ false
      → exists (exec zfs (destroy_args recursive name) s).1 other ≡ exists s other
  pub destroy_missing :
      (s : S) (recursive : Bool) (name other : Str)
      → exists s other ≡ false
      → exists (exec zfs (destroy_args recursive name) s).1 other ≡ false
