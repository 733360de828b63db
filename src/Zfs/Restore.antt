-- ===== src/Zfs/Restore.antt =====
-- pkg/zfs/zfs_util.go: `CreateRestore` and `getDevice`, and the reconcile of a restore in
-- pkg/mgmt/restore.
use zfs_localpv.Prelude.{
  ℕ, zero, suc, Str, codes, ◌==◌, List, ◌++◌, Bool, ◌||◌, if◌then◌else◌, is_empty, not,
}
use zfs_localpv.Api.{ZfsVolume, ZfsRestore, Result, ok, err, plain}
use zfs_localpv.Zfs.Args.{dataset}
use zfs_localpv.Zfs.Args.Transfer.{build_volume_restore_args}
use zfs_localpv.Zfs.Host.{Ran, ◌>>◌}

-- `get` is the API server's `Get` of a volume, `pipe` runs `nc` into `zfs recv`, `stat` looks for a
-- device, and `update` is the API server's `Update` of a restore.
module _ {S : Type 0} (get : Str → S → Ran S ZfsVolume)
    (pipe : List Str → List Str → S → Ran S (Unit {0})) (stat : Str → S → Bool × S)
    (generate_uuid : Str → Str → S → Ran S (Unit {0}))
    (update : ZfsRestore → S → Ran S (Unit {0})) where
  -- `getDevice`, with the number of looks that fit in its five seconds
  unfoldable pub get_device : ℕ → Str → S → Ran S Str
  get_device zero volume s = (err plain, s)
  get_device (suc looks) volume s =
      let device = codes "/dev/zvol/" ++ volume in
      let (found, t) = stat device s in
      let later = get_device looks volume t in if found then (ok device, t) else later

  -- an older velero leaves the spec out
  unfoldable pub with_spec : ZfsRestore → S → Ran S ZfsRestore
  with_spec rstr s =
      if is_empty rstr.vol_spec.pool_name
      then get rstr.volume_name s >> (λ vol t. (ok (record rstr { vol_spec = vol.spec }), t))
      else (ok rstr, s)

  abbrev pub receive : Result (List Str × List Str) → S → Ran S (Unit {0})
  receive (ok (nc_args, recv_args)) s = pipe nc_args recv_args s
  receive (err e) s = (err e, s)

  -- the end of `CreateRestore`
  unfoldable pub renew_restored : ℕ → ZfsRestore → S → Ran S (Unit {0})
  unfolding get_device
  renew_restored looks rstr s =
      if fs_type == codes "xfs" || fs_type == codes "btrfs"
      then get_device looks (dataset rstr.vol_spec.pool_name rstr.volume_name) s
        >> (λ device t. generate_uuid fs_type device t)
      else (ok tt, s)
    where
      fs_type : Str
      fs_type = rstr.vol_spec.fs_type

  -- `CreateRestore`
  unfoldable pub create_restore : ℕ → ZfsRestore → S → Ran S (Unit {0})
  unfolding with_spec renew_restored
  create_restore looks rstr s = with_spec rstr s >> (λ full t.
      receive (build_volume_restore_args full) t >> (λ _ u. renew_restored looks full u))

  abbrev pub record_restore : ZfsRestore → Ran S (Unit {0}) → Ran S (Unit {0})
  record_restore rstr (ok _, s) = update (record rstr { status = codes "Done" }) s
  record_restore rstr (err _, s) = update (record rstr { status = codes "Failed" }) s

  -- The spec that `CreateRestore` fills in stays in the object that `UpdateRestoreInfo` writes.
  abbrev pub filled : ZfsRestore → Ran S ZfsRestore → ZfsRestore
  filled rstr (ok full, _) = full
  filled rstr (err _, _) = rstr

  -- `syncRestore`
  unfoldable pub sync_restore : ℕ → ZfsRestore → S → Ran S (Unit {0})
  unfolding create_restore with_spec
  sync_restore looks rstr s =
      if not rstr.deleting
      then if rstr.status == codes "Init"
        then record_restore (filled rstr (with_spec rstr s)) (create_restore looks rstr s)
        else (ok tt, s)
      else (ok tt, s)
