-- ===== src/Zfs/Refused.antt =====
-- A restore from an address that is not accepted.
use zfs_localpv.Prelude.{ℕ, Str, ◌≡◌, ◌≢◌, refl, Bool, false, List, nat_eq, count, is_empty}
use zfs_localpv.Api.{ZfsVolume, ZfsRestore, err, plain}
use zfs_localpv.Zfs.Args.Transfer.{build_volume_restore_args}
use zfs_localpv.Zfs.Args.Address.{address-err}
use zfs_localpv.Zfs.Host.{Ran}
use zfs_localpv.Zfs.Restore.{create_restore}

-- `CreateRestore` of a restore that has its spec fails on an address that does not have one colon,
-- and then it has run nothing.
pub create_restore_refused :
    {S : Type 0} (get : Str → S → Ran S ZfsVolume)
    (pipe : List Str → List Str → S → Ran S (Unit {0})) (stat : Str → S → Bool × S)
    (generate_uuid : Str → Str → S → Ran S (Unit {0})) (update : ZfsRestore → S → Ran S (Unit {0}))
    (looks : ℕ) (rstr : ZfsRestore) (s : S)
    → is_empty rstr.vol_spec.pool_name ≡ false
    → count (λ c. nat_eq c b':') rstr.restore_src ≢ 1
    → create_restore get pipe stat generate_uuid update looks rstr s ≡ (err plain, s)
unfolding create_restore build_volume_restore_args
create_restore_refused get pipe stat generate_uuid update looks rstr s full colons =
    let refused : build_volume_restore_args rstr ≡ err plain =
      (address-err _ rstr.restore_src).1 colons in
    rw (full, refused) refl
