-- ===== src/Controller/Provision/Ready.antt =====
-- A volume that `ProvisionVolume` has provisioned.
use zfs_localpv.Prelude.{
  ℕ, zero, suc, Str, codes, ◌==◌, ==→≡, ◌≡◌, refl, sym, ap, ◌∙◌, true, ◌&&◌, Option, none, some,
}
use zfs_localpv.Api.{ZfsVolume, ZfsSnapshot, VolumeInfo, ok, err}
use zfs_localpv.Zfs.Host.{Ran, succeeded}
use zfs_localpv.Mgmt.Server.{no_finalizers}
use zfs_localpv.Controller.Server.{Cluster, ClusterLaws, Got, Same, written_volume}
use zfs_localpv.Controller.Cases.{if-cases, Wrote-ok}
use zfs_localpv.Controller.Provision.{
  Provision, provisioned, checked, if_written, check_vol_creation, write_or_add, provision_volume,
}

written-spec : (vol found : ZfsVolume) → written_volume vol ≡ some found → found.spec ≡ vol.spec
written-spec vol found =
    if-cases (λ o. o ≡ some found → found.spec ≡ vol.spec)
      (vol.deleting && no_finalizers vol.finalizers) none (some vol) (λ _ h. cc)
      (λ _ h. let one : found ≡ vol = cc in ap (λ v. v.spec) one)

module _ {S : Type 0} (volumes : S → Str → Option ZfsVolume) (name : Str) (spec : VolumeInfo) where
  -- The volume of the name, if it is there, has the spec.
  abbrev Specified : S → Type 0
  Specified s = (vol : ZfsVolume) → volumes s name ≡ some vol → vol.spec ≡ spec

  -- The volume is there, with the spec, and it is ready.
  abbrev pub IsReady : S → Type 0
  IsReady s =
      (vol : ZfsVolume) × (volumes s name ≡ some vol)
      × (vol.spec ≡ spec)
      × (vol.state ≡ codes "Ready")

  abbrev Reports : Provision × S → Type 0
  Reports outcome = outcome.0 ≡ provisioned → IsReady outcome.1

  checked-Reports :
      (ran : Ran S ZfsVolume) (again : S → Provision × S) (s : S)
      → Got volumes name s ran.0
      → Same volumes s ran.1
      → Specified s
      → ((t : S) → Specified t → Reports (again t))
      → Reports (checked ran again)
  checked-Reports (err e, t) again s got same specified next = λ h. cc
  checked-Reports (ok vol, t) again s got same specified next =
      if-cases Reports (vol.state == codes "Ready") _ _
        (λ ready _. (vol, same name ∙ got, specified vol got, ==→≡ vol.state (codes "Ready") ready))
        (λ _.
          if-cases Reports (vol.state == codes "Failed") _ _ (λ _ h. cc)
            (λ _. next t λ other present. specified other (sym (same name) ∙ present)))

  if_written-Reports :
      (ran : Ran S (Unit {0})) (next : S → Provision × S)
      → (succeeded ran ≡ true → Reports (next ran.1))
      → Reports (if_written ran next)
  if_written-Reports (ok _, s) next good = good refl
  if_written-Reports (err e, s) next good = λ h. cc

module _ {S : Type 0} {api : Cluster S} {volumes : S → Str → Option ZfsVolume}
    {snapshots : S → Str → Option ZfsSnapshot} (laws : ClusterLaws api volumes snapshots) where
  open laws use {
    volume_name, read_volume_keeps, read_volume_got, write_volume_wrote, add_volume_wrote,
    sleep_volume,
  }

  check-Reports :
      (name : Str) (spec : VolumeInfo) (seconds : ℕ) (s : S)
      → Specified volumes name spec s
      → Reports volumes name spec (check_vol_creation api seconds name s)
  unfolding check_vol_creation
  check-Reports name spec zero s specified = λ h. cc
  check-Reports name spec (suc seconds) s specified =
      checked-Reports volumes name spec (api.read_volume name s) _ s (read_volume_got name s)
        (read_volume_keeps name s).0 specified
        (λ t still. check-Reports name spec seconds (api.sleep t) λ vol present.
          let (before, there, same) = sleep_volume t name vol present in same ∙ still before there)

  write_or_add-Specified :
      (vol : ZfsVolume) (s : S) (ran : Ran S ZfsVolume)
      → Got volumes vol.name s ran.0
      → succeeded (write_or_add api vol ran) ≡ true
      → Specified volumes vol.name vol.spec (write_or_add api vol ran).1
  write_or_add-Specified vol s (ok zv, t) got good found present =
      let object : ZfsVolume = record zv { spec = vol.spec; state = vol.state } in
      let named : zv.name ≡ vol.name = volume_name s vol.name zv got in
      let stored =
        Wrote-ok volumes zv.name (written_volume object) t (api.write_volume object t)
          (write_volume_wrote object t) good in
      written-spec object found
        (sym stored ∙ ap (volumes (api.write_volume object t).1) named ∙ present)
  write_or_add-Specified vol s (err e, t) got good found present =
      let stored =
        Wrote-ok volumes vol.name (some vol) t (api.add_volume vol t) (add_volume_wrote vol t)
          good in
      let there : some found ≡ some vol = sym present ∙ stored in
      let one : found ≡ vol = cc in ap (λ v. v.spec) one

  -- Where `ProvisionVolume` reports no error, the volume object is there, has the spec that was
  -- asked for, and is ready: whether it was there before or not, and however long it took.
  pub provision_volume-IsReady :
      (seconds : ℕ) (vol : ZfsVolume) (s : S)
      → (provision_volume api seconds vol s).0 ≡ provisioned
      → IsReady volumes vol.name vol.spec (provision_volume api seconds vol s).1
  unfolding provision_volume
  provision_volume-IsReady seconds vol s =
      if_written-Reports volumes vol.name vol.spec
        (write_or_add api vol (api.read_volume vol.name s))
        (check_vol_creation api seconds vol.name)
        (λ good. check-Reports vol.name vol.spec seconds _ (
          write_or_add-Specified vol s (api.read_volume vol.name s) (read_volume_got vol.name s)
            good))
