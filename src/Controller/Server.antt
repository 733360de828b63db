-- ===== src/Controller/Server.antt =====
-- What the CSI controller asks of the Kubernetes API server, and what it relies on: the calls of
-- the clients in pkg/builder, as parameters. The laws speak of one request that runs while no
-- other client changes the objects it reads.
use zfs_localpv.Prelude.{
  Str, codes, ◌==◌, List, [], ◌≡◌, true, false, Option, none, some, ◌⊎◌, ◌&&◌, if◌then◌else◌, Dict,
  get_or, Any,
}
use zfs_localpv.Api.{
  ZfsVolume, ZfsSnapshot, ZfsNode, Result, ok, err, Code, status, object_not_found, plain,
}
use zfs_localpv.Zfs.Host.{Ran, succeeded}
use zfs_localpv.Mgmt.Server.{no_finalizers}

pub record Cluster (S : Type 0) : Type 0 where
  pub read_volume : Str → S → Ran S ZfsVolume
  pub write_volume : ZfsVolume → S → Ran S (Unit {0})
  pub add_volume : ZfsVolume → S → Ran S (Unit {0})
  pub remove_volume : Str → S → Ran S (Unit {0})
  pub all_volumes : S → Ran S (List ZfsVolume)
  pub read_snapshot : Str → S → Ran S ZfsSnapshot
  pub add_snapshot : ZfsSnapshot → S → Ran S (Unit {0})
  pub remove_snapshot : Str → S → Ran S (Unit {0})
  -- the snapshots that carry the label of a volume
  pub snapshots_of : Str → S → Ran S (List ZfsSnapshot)
  pub zfs_node : Str → S → Ran S ZfsNode
  pub zfs_nodes : S → Ran S (List ZfsNode)
  -- the labels of a Kubernetes node
  pub node_labels : Str → S → Ran S (Dict Str)
  -- `time.Sleep(time.Second)`
  pub sleep : S → S

-- `ZFSVolKey`
abbrev pub volume_key : Str
volume_key = codes "openebs.io/persistent-volume"

-- the error of a call, reported under another code
abbrev pub or_status : {S A : Type 0} → Code → Ran S A → Ran S A
or_status code (ok a, s) = (ok a, s)
or_status code (err e, s) = (err (status code), s)

-- `errors.Wrapf`
abbrev pub wrapped : {S A : Type 0} → Ran S A → Ran S A
wrapped (ok a, s) = (ok a, s)
wrapped (err e, s) = (err plain, s)

-- `if k8serror.IsNotFound(err)`: what is not there needs no more work
abbrev pub unless_missing : {S A : Type 0} → Ran S A → (A → S → Ran S (Unit {0})) → Ran S (Unit {0})
unless_missing (ok a, s) act = act a s
unless_missing (err object_not_found, s) act = (ok tt, s)
unless_missing (err e, s) act = (err plain, s)

-- a check that touches nothing
abbrev pub check : {S : Type 0} → Result (Unit {0}) → S → Ran S (Unit {0})
check result s = (result, s)

module _ {S : Type 0} {A : Type 0} (stored : S → Str → Option A) where
  abbrev pub Same : S → S → Type 0
  Same s t = (name : Str) → stored t name ≡ stored s name

  abbrev pub Got : Str → S → Result A → Type 0
  Got name s (ok a) = stored s name ≡ some a
  Got name s (err e) = e ≡ object_not_found → stored s name ≡ none

  -- A call that changes one object. If it fails, the change may have been made or not.
  abbrev pub Wrote : Str → Option A → S → Ran S (Unit {0}) → Type 0
  Wrote name after s ran =
      ((other : Str) → (name == other) ≡ false → stored ran.1 other ≡ stored s other)
      × ((stored ran.1 name ≡ after)
          ⊎ ((succeeded ran ≡ false) × (stored ran.1 name ≡ stored s name)))

-- An object with finalizers stays until these are taken off.
abbrev pub removed_volume : Option ZfsVolume → Option ZfsVolume
removed_volume none = none
removed_volume (some vol) =
    if no_finalizers vol.finalizers then none else some (record vol { deleting = true })

abbrev pub removed_snapshot : Option ZfsSnapshot → Option ZfsSnapshot
removed_snapshot none = none
removed_snapshot (some snap) =
    if no_finalizers snap.finalizers then none else some (record snap { deleting = true })

abbrev pub written_volume : ZfsVolume → Option ZfsVolume
written_volume vol = if vol.deleting && no_finalizers vol.finalizers then none else some vol

pub record ClusterLaws {S : Type 0} (api : Cluster S) (volumes : S → Str → Option ZfsVolume)
    (snapshots : S → Str → Option ZfsSnapshot) : Type 0 where
  -- An object is stored under its name.
  pub volume_name :
      (s : S) (name : Str) (vol : ZfsVolume) → volumes s name ≡ some vol → vol.name ≡ name
  pub snapshot_name :
      (s : S) (name : Str) (snap : ZfsSnapshot) → snapshots s name ≡ some snap → snap.name ≡ name
  -- Reads change nothing.
  pub read_volume_keeps :
      (name : Str) (s : S)
      → Same volumes s (api.read_volume name s).1 × Same snapshots s (api.read_volume name s).1
  pub read_volume_got : (name : Str) (s : S) → Got volumes name s (api.read_volume name s).0
  pub read_snapshot_keeps :
      (name : Str) (s : S)
      → Same volumes s (api.read_snapshot name s).1 × Same snapshots s (api.read_snapshot name s).1
  pub read_snapshot_got : (name : Str) (s : S) → Got snapshots name s (api.read_snapshot name s).0
  pub snapshots_of_keeps :
      (volume : Str) (s : S)
      → Same volumes s (api.snapshots_of volume s).1
        × Same snapshots s (api.snapshots_of volume s).1
  -- A list has every snapshot with the label, those that are being deleted included.
  pub snapshots_of_all :
      (volume : Str) (s : S) (snaps : List ZfsSnapshot) (name : Str) (snap : ZfsSnapshot)
      → (api.snapshots_of volume s).0 ≡ ok snaps
      → snapshots s name ≡ some snap
      → get_or volume_key snap.labels [] ≡ volume
      → Any (λ item. item.name ≡ name) snaps
  pub write_volume_wrote :
      (vol : ZfsVolume) (s : S)
      → Wrote volumes vol.name (written_volume vol) s (api.write_volume vol s)
  pub add_volume_wrote :
      (vol : ZfsVolume) (s : S) → Wrote volumes vol.name (some vol) s (api.add_volume vol s)
  pub remove_volume_wrote :
      (name : Str) (s : S)
      → Wrote volumes name (removed_volume (volumes s name)) s (api.remove_volume name s)
  pub add_snapshot_wrote :
      (snap : ZfsSnapshot) (s : S)
      → Wrote snapshots snap.name (some snap) s (api.add_snapshot snap s)
  pub add_snapshot_keeps : (snap : ZfsSnapshot) (s : S) → Same volumes s (api.add_snapshot snap s).1
  pub remove_snapshot_wrote :
      (name : Str) (s : S)
      → Wrote snapshots name (removed_snapshot (snapshots s name)) s (api.remove_snapshot name s)
  pub remove_snapshot_keeps : (name : Str) (s : S) → Same volumes s (api.remove_snapshot name s).1
  -- While a request sleeps, no snapshot appears and none changes its volume.
  pub sleep_snapshot :
      (s : S) (name : Str) (snap : ZfsSnapshot)
      → snapshots (api.sleep s) name ≡ some snap
      → (before : ZfsSnapshot) × (snapshots s name ≡ some before)
        × (get_or volume_key snap.labels [] ≡ get_or volume_key before.labels [])
  -- No volume appears, and the node agent does not change the spec of one.
  pub sleep_volume :
      (s : S) (name : Str) (vol : ZfsVolume)
      → volumes (api.sleep s) name ≡ some vol
      → (before : ZfsVolume) × (volumes s name ≡ some before) × (vol.spec ≡ before.spec)
