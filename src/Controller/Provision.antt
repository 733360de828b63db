-- ===== src/Controller/Provision.antt =====
-- `ProvisionVolume`, `checkVolCreation` and `waitForVolDestroy`.
pub mod Ready
use zfs_localpv.Prelude.{ℕ, zero, suc, Str, codes, ◌==◌, Bool, true, false, if◌then◌else◌}
use zfs_localpv.Api.{
  ZfsVolume, Error, ok, err, status, plain, object_not_found, internal, deadline_exceeded,
  still_waiting,
}
use zfs_localpv.Zfs.Host.{Ran, ◌>>◌}
use zfs_localpv.Controller.Server.{Cluster}

-- The pair of a flag and an error that `ProvisionVolume` returns: no error, an error with the flag
-- that says that time ran out, or another error.
pub data Provision : Type 0 where
  provisioned : Provision
  timed_out : Error → Provision
  not_provisioned : Error → Provision

-- one round of `checkVolCreation`
abbrev pub checked : {S : Type 0} → Ran S ZfsVolume → (S → Provision × S) → Provision × S
checked (err e, s) again = (not_provisioned (status internal), s)
checked (ok vol, s) again =
    if vol.state == codes "Ready"
    then (provisioned, s)
    else if vol.state == codes "Failed"
    then (not_provisioned (status internal), s)
    else again s

abbrev pub if_written : {S : Type 0} → Ran S (Unit {0}) → (S → Provision × S) → Provision × S
if_written (ok _, s) next = next s
if_written (err e, s) next = (not_provisioned e, s)

module _ {S : Type 0} (api : Cluster S) where
  -- The timer or the context of the request ends the wait after so many rounds of a second.
  unfoldable pub check_vol_creation : ℕ → Str → S → Provision × S
  check_vol_creation zero name s = (timed_out (status deadline_exceeded), s)
  check_vol_creation (suc seconds) name s =
      checked (api.read_volume name s) (λ t. check_vol_creation seconds name (api.sleep t))

  abbrev pub write_or_add : ZfsVolume → Ran S ZfsVolume → Ran S (Unit {0})
  write_or_add vol (ok zv, s) =
      api.write_volume (record zv { spec = vol.spec; state = vol.state }) s
  write_or_add vol (err e, s) = api.add_volume vol s

  -- `ProvisionVolume`
  unfoldable pub provision_volume : ℕ → ZfsVolume → S → Provision × S
  unfolding check_vol_creation
  provision_volume seconds vol s =
      if_written (write_or_add vol (api.read_volume vol.name s))
        (check_vol_creation seconds vol.name)

  abbrev pub until_missing : Ran S ZfsVolume → (S → Ran S (Unit {0})) → Ran S (Unit {0})
  until_missing (err object_not_found, s) again = (ok tt, s)
  until_missing (err e, s) again = (err (status internal), s)
  until_missing (ok vol, s) again = again s

  -- `waitForVolDestroy`, watched for so many rounds; it has no bound of its own
  unfoldable pub wait_for_vol_destroy : ℕ → Str → S → Ran S (Unit {0})
  wait_for_vol_destroy zero name s = (err still_waiting, s)
  wait_for_vol_destroy (suc rounds) name s =
      until_missing (api.read_volume name s) (λ t. wait_for_vol_destroy rounds name (api.sleep t))
