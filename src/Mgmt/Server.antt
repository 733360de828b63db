-- ===== src/Mgmt/Server.antt =====
-- What the controllers rely on of the API server, and the parts of pkg/zfs/volume.go that read and
-- write its objects.
use zfs_localpv.Prelude.{
  Str, codes, ◌==◌, List, [], ◌∷◌, ◌++◌, ◌≡◌, Bool, true, false, Option, none, some, ◌&&◌, not,
  if◌then◌else◌, is_empty, insert, contains, filter,
}
use zfs_localpv.Api.{ZfsVolume}
use zfs_localpv.Zfs.Host.{Ran, succeeded, Exec}

abbrev pub zfs_finalizer : Str
zfs_finalizer = codes "zfs.openebs.io/finalizer"

-- `GetUserFinalizers`
unfoldable pub get_user_finalizers : List Str → List Str
get_user_finalizers finalizers =
    filter (λ fin. not (fin == zfs_finalizer) && not (fin == codes "foregroundDeletion")) finalizers

-- `IsVolumeReady`
unfoldable pub is_volume_ready : ZfsVolume → Bool
is_volume_ready vol =
    if not (is_empty vol.state)
    then vol.state == codes "Ready"
    else contains zfs_finalizer vol.finalizers

-- the object that `UpdateZvolInfo` writes
unfoldable pub updated_volume : Str → Str → ZfsVolume → ZfsVolume
updated_volume node_id status vol = record vol {
  finalizers = vol.finalizers ++ (if status == codes "Ready" then zfs_finalizer ∷ [] else []);
  state = status;
  labels = insert (codes "kubernetes.io/nodename") node_id vol.labels;
}

abbrev pub no_finalizers : List Str → Bool
no_finalizers [] = true
no_finalizers (_ ∷ _) = false

-- `Update` of a volume object, as Kubernetes documents it: it stores the object, except that an
-- object that is being deleted and has no finalizers left is gone. It runs no commands, and
-- commands do not change objects.
pub record VolumeStore {S : Type 0} (exec : Exec S) (exists : S → Str → Bool)
    (update : ZfsVolume → S → Ran S (Unit {0})) (stored : S → Str → Option ZfsVolume) : Type 0 where
  pub update_stored :
      (vol : ZfsVolume) (s : S)
      → succeeded (update vol s) ≡ true
      → stored (update vol s).1 vol.name
        ≡ (if vol.deleting && no_finalizers vol.finalizers then none else some vol)
  pub update_exists :
      (vol : ZfsVolume) (s : S) (name : Str) → exists (update vol s).1 name ≡ exists s name
  pub exec_stored :
      (command : Str) (args : List Str) (s : S) (name : Str)
      → stored (exec command args s).1 name ≡ stored s name
