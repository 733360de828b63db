-- ===== src/Zfs/Backup.antt =====
-- pkg/zfs/zfs_util.go: `CreateBackup` and `DestoryBackup`, and the reconcile of a backup in
-- pkg/mgmt/backup.
use zfs_localpv.Prelude.{
  Str, codes, ◌==◌, ==-self, List, [], ◌∷◌, ◌++◌, ◌≡◌, refl, ◌∙◌, Bool, true, false, if◌then◌else◌,
}
use zfs_localpv.Api.{
  VolumeInfo, ZfsVolume, ZfsSnapshot, ZfsBackup, Result, ok, err, status, object_not_found, plain,
  panicked, still_waiting,
}
use zfs_localpv.Zfs.Args.{snapshot_path}
use zfs_localpv.Zfs.Args.Transfer.{build_volume_backup_args}
use zfs_localpv.Zfs.Host.{Ran, ◌>>◌, succeeded, Exec, ZfsCommand}
use zfs_localpv.Zfs.Volumes.{create_snapshot, destroy_snapshot}
use zfs_localpv.Zfs.Volumes.Create.{create_snapshot-exists}
use zfs_localpv.Zfs.Volumes.Clone.{succeeded-then}

-- the zero value of `VolumeInfo`, but for the pool
abbrev pool_only : Str → VolumeInfo
pool_only pool = record {
  owner_node_id = [];
  pool_name = pool;
  snap_name = [];
  capacity = [];
  record_size = [];
  vol_block_size = [];
  compression = [];
  dedup = [];
  a_time = [];
  log_bias = [];
  encryption = [];
  key_location = [];
  key_format = [];
  thin_provision = [];
  volume_type = [];
  quota_type = [];
  fs_type = [];
  shared = [];
  user_properties = [];
}

-- the snapshot that a backup sends
abbrev pub backup_snapshot : ZfsBackup → ZfsVolume → ZfsSnapshot
backup_snapshot bkp vol = record {
  name = bkp.snap_name;
  labels = (codes "openebs.io/persistent-volume", vol.name) ∷ [];
  finalizers = [];
  deleting = false;
  spec = pool_only vol.spec.pool_name;
  state = [];
}

-- the volume is gone, so its snapshot is too
abbrev pub unless_not_found :
    {S A : Type 0} → Ran S A → (A → S → Ran S (Unit {0})) → Ran S (Unit {0})
unless_not_found (ok a, s) f = f a s
unless_not_found (err object_not_found, s) f = (ok tt, s)
unless_not_found (err (status c), s) f = (err (status c), s)
unless_not_found (err plain, s) f = (err plain, s)
unless_not_found (err panicked, s) f = (err panicked, s)
unless_not_found (err still_waiting, s) f = (err still_waiting, s)

ran_ok : {S : Type 0} (ran : Ran S (Unit {0})) → succeeded ran ≡ true → ran ≡ (ok tt, ran.1)
ran_ok (ok _, t) h = refl
ran_ok (err e, t) h = cc

-- `get` is the API server's `Get` of a volume, `pipe` runs `zfs send` into `nc`, and `update` is
-- the API server's `Update` of a backup.
module _ {S : Type 0} (exec : Exec S) (get : Str → S → Ran S ZfsVolume)
    (pipe : List Str → List Str → S → Ran S (Unit {0}))
    (update : ZfsBackup → S → Ran S (Unit {0})) where
  abbrev pub send : Result (List Str × List Str) → S → Ran S (Unit {0})
  send (ok (send_args, nc_args)) s = pipe send_args nc_args s
  send (err e) s = (err e, s)

  abbrev pub snapshot_and_send : ZfsBackup → ZfsVolume → S → Ran S (Unit {0})
  snapshot_and_send bkp vol s =
      create_snapshot exec (backup_snapshot bkp vol) s
      >> (λ _ t. send (build_volume_backup_args bkp vol) t)

  -- `CreateBackup`
  unfoldable pub create_backup : ZfsBackup → S → Ran S (Unit {0})
  create_backup bkp s = get bkp.volume_name s >> (λ vol t. snapshot_and_send bkp vol t)

  -- `DestoryBackup`
  unfoldable pub destroy_backup : ZfsBackup → S → Ran S (Unit {0})
  destroy_backup bkp s =
      unless_not_found (get bkp.volume_name s)
        λ vol t. destroy_snapshot exec (backup_snapshot bkp vol) t

  -- the object that `UpdateBkpInfo` writes
  unfoldable pub updated_backup : Str → ZfsBackup → ZfsBackup
  updated_backup result bkp = record bkp {
    finalizers = bkp.finalizers ++ codes "zfs.openebs.io/finalizer" ∷ [];
    status = result;
  }

  abbrev pub record_backup : ZfsBackup → Ran S (Unit {0}) → Ran S (Unit {0})
  record_backup bkp (ok _, s) = update (updated_backup (codes "Done") bkp) s
  record_backup bkp (err _, s) = update (updated_backup (codes "Failed") bkp) s

  -- `syncBkp`; the last step of a removal is `RemoveBkpFinalizer`
  unfoldable pub sync_bkp : ZfsBackup → S → Ran S (Unit {0})
  unfolding create_backup destroy_backup updated_backup
  sync_bkp bkp s =
      if bkp.deleting
      then destroy_backup bkp s >> (λ _ t. update (record bkp { finalizers = [] }) t)
      else if bkp.status == codes "Init"
      then record_backup bkp (create_backup bkp s)
      else (ok tt, s)

  -- The pipe ran without an error, for the arguments that send this snapshot of the volume.
  abbrev pub Sent : ZfsBackup → ZfsVolume → S → Type 0
  Sent bkp vol after =
      (send_args : List Str) × (nc_args : List Str) × (t : S) × (build_volume_backup_args bkp vol
        ≡ ok (send_args, nc_args))
      × (pipe send_args nc_args t ≡ (ok tt, after))

  module _ {exists : S → Str → Bool} (laws : ZfsCommand exec exists)
      (pipe_exists : (send_args nc_args : List Str) (s : S) (other : Str)
        → exists (pipe send_args nc_args s).1 other ≡ exists s other) where
    send-exists :
        (args : Result (List Str × List Str)) (s : S) (other : Str)
        → exists (send args s).1 other ≡ exists s other
    send-exists (ok (send_args, nc_args)) s other = pipe_exists send_args nc_args s other
    send-exists (err e) s other = refl

    send-Sent :
        (bkp : ZfsBackup) (vol : ZfsVolume) (s : S)
        → succeeded (send (build_volume_backup_args bkp vol) s) ≡ true
        → Sent bkp vol (send (build_volume_backup_args bkp vol) s).1
    send-Sent bkp vol s = go (build_volume_backup_args bkp vol) refl
      where
        go :
            (args : Result (List Str × List Str))
            → build_volume_backup_args bkp vol ≡ args
            → succeeded (send args s) ≡ true
            → Sent bkp vol (send args s).1
        go (ok (send_args, nc_args)) eq h =
            (send_args, nc_args, s, eq, ran_ok (pipe send_args nc_args s) h)
        go (err e) eq h = cc

    snapshot_and_send-Sent :
        (bkp : ZfsBackup) (vol : ZfsVolume) (s : S)
        → succeeded (snapshot_and_send bkp vol s) ≡ true
        → (exists (snapshot_and_send bkp vol s).1 (snapshot_path (backup_snapshot bkp vol)) ≡ true)
          × Sent bkp vol (snapshot_and_send bkp vol s).1
    snapshot_and_send-Sent bkp vol s h =
        let snap = backup_snapshot bkp vol in
        let path = snapshot_path snap in
        succeeded-then (λ t. (exists t path ≡ true) × Sent bkp vol t) (create_snapshot exec snap s)
          (λ _ t. send (build_volume_backup_args bkp vol) t) h
          λ once _ twice. (
            send-exists (build_volume_backup_args bkp vol) _ path
                ∙ create_snapshot-exists laws snap s path
                ∙ rw (once, ==-self path) refl,
            send-Sent bkp vol _ twice,
          )

    -- `CreateBackup` that succeeds has found the volume's object, has run the pipe that sends the
    -- snapshot of that volume, without an error, and leaves the snapshot on the node, where the next
    -- incremental backup needs it.
    pub create_backup-Sent :
        (bkp : ZfsBackup) (s : S)
        → succeeded (create_backup bkp s) ≡ true
        → (vol : ZfsVolume) × ((get bkp.volume_name s).0 ≡ ok vol)
          × (exists (create_backup bkp s).1 (snapshot_path (backup_snapshot bkp vol)) ≡ true)
          × Sent bkp vol (create_backup bkp s).1
    unfolding create_backup
    create_backup-Sent bkp s = go (get bkp.volume_name s)
      where
        go :
            (got : Ran S ZfsVolume)
            → succeeded (got >> (λ vol t. snapshot_and_send bkp vol t)) ≡ true
            → (vol : ZfsVolume) × (got.0 ≡ ok vol)
              × (exists
                    (got >> (λ vol t. snapshot_and_send bkp vol t)).1
                    (snapshot_path (backup_snapshot bkp vol))
                  ≡ true)
              × Sent bkp vol (got >> (λ v t. snapshot_and_send bkp v t)).1
        go (ok vol, t) h =
            let (there, sent) = snapshot_and_send-Sent bkp vol t h in (vol, refl, there, sent)
        go (err e, t) h = cc
