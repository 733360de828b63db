-- ===== src/Mgmt/Settled.antt =====
-- What a reconcile of a volume leaves behind.
use zfs_localpv.Prelude.{
  Str, codes, List, [], ◌∷◌, ◌≡◌, Bool, true, false, Option, none, some, if◌then◌else◌, ◌⊎◌, All,
  is_empty,
}
use zfs_localpv.Api.{ZfsVolume}
use zfs_localpv.Zfs.Args.{volume_path}
use zfs_localpv.Zfs.Host.{Ran, ◌>>◌, succeeded, Exec, ZfsCommand}
use zfs_localpv.Zfs.Volumes.{destroy_volume, source_volume}
use zfs_localpv.Zfs.Volumes.Clone.{clone_datasets}
use zfs_localpv.Mgmt.Server.{get_user_finalizers, no_finalizers, VolumeStore}

-- what has to be there for a volume to be ready
abbrev pub needed : ZfsVolume → List Str
needed vol =
    if is_empty vol.spec.snap_name
    then volume_path vol ∷ []
    else clone_datasets vol (source_volume vol)

-- the volume as the API server has it: ready and on the node where the provisioning succeeded, and
-- failed where it failed
abbrev pub Settled :
    {S : Type 0} → (S → Str → Bool) → (S → Str → Option ZfsVolume) → ZfsVolume → Bool → S → Type 0
Settled exists stored vol provisioned s =
    (w : ZfsVolume) × (stored s vol.name ≡ some w)
    × (((provisioned ≡ true)
          × (w.state ≡ codes "Ready")
          × All (λ name. exists s name ≡ true) (needed vol))
        ⊎ ((provisioned ≡ false) × (w.state ≡ codes "Failed")))

-- What a reconcile of an object that is being deleted comes to: it fails and keeps the object, or no
-- one else's finalizer is left and the destroying is done, and the object is gone or its removal failed.
abbrev pub Removal :
    {S A B : Type 0} → (S → Str → Option A) → Str → List Str → Type 0 → S → Ran S B → Type 0
Removal stored name finalizers Done s ran =
    ((succeeded ran ≡ false) × (stored ran.1 name ≡ stored s name))
    ⊎ ((no_finalizers (get_user_finalizers finalizers) ≡ true)
        × Done
        × ((stored ran.1 name ≡ none) ⊎ (succeeded ran ≡ false)))

module _ {S : Type 0} {exec : Exec S} {exists : S → Str → Bool}
    {update : ZfsVolume → S → Ran S (Unit {0})} {stored : S → Str → Option ZfsVolume}
    (laws : ZfsCommand exec exists) (generate_uuid : Str → Str → S → Ran S (Unit {0}))
    (uuid_only : (fs_type device : Str) (s : S) (other : Str)
      → exists (generate_uuid fs_type device s).1 other ≡ exists s other)
    (store : VolumeStore exec exists update stored) (node_id : Str) where
  open store use {update_stored, update_exists, exec_stored}

  unfoldable removal : ZfsVolume → S → Ran S (Unit {0})
  removal vol s = destroy_volume exec vol s >> λ _ t. update (record vol { finalizers = [] }) t
