-- ===== src/Zfs/Args/Address.antt =====
-- The addresses that backup and restore accept.
use zfs_localpv.Prelude.{
  split, cons_first, Str, ℕ, List, [], ◌∷◌, ◌≡◌, ◌≢◌, ◌↔◌, refl, arith, count, nat_eq, length, ◌<◌,
  ◌+◌,
}
use zfs_localpv.Api.{ZfsVolume, ZfsBackup, ZfsRestore, ok, err, plain, ◌>>=◌}
use zfs_localpv.Zfs.Args.Transfer.{nc_args, build_volume_backup_args, build_volume_restore_args}

length-cons_first :
    (c : ℕ) (parts : List Str) → 0 < length parts → length (cons_first c parts) ≡ length parts
length-cons_first c parts h = ground arith

-- A separator more is a part more.
length-split : (sep : ℕ) (s : Str) → length (split sep s) ≡ 1 + count (λ c. nat_eq c sep) s
unfolding split
length-split sep [] = refl
length-split sep (c ∷ s) =
    let ih = length-split sep s in let first = length-cons_first c (split sep s) in ground arith

nc_args-err :
    {A : Type 0} (f : List Str → A) (parts : List Str)
    → (nc_args parts >>= (λ nc. ok (f nc)) ≡ err plain) ↔ (length parts ≢ 2)
nc_args-err f [] = ground arith
nc_args-err f (a ∷ []) = ground arith
nc_args-err f (a ∷ b ∷ []) = ground arith
nc_args-err f (a ∷ b ∷ c ∷ parts) = ground arith

pub address-err :
    {A : Type 0} (f : List Str → A) (s : Str)
    → (nc_args (split b':' s) >>= (λ nc. ok (f nc)) ≡ err plain)
      ↔ (count (λ c. nat_eq c b':') s ≢ 1)
address-err f s =
    let parts = length-split b':' s in
    let (there, back) = nc_args-err f (split b':' s) in
    (λ failed. let other = there failed in omega arith, λ other. back (omega arith))

-- Backup and restore refuse an address, with an error, exactly when it does not have one colon.
pub build_args-err :
    (bkp : ZfsBackup) (vol : ZfsVolume) (rstr : ZfsRestore)
    → ((build_volume_backup_args bkp vol ≡ err plain)
        ↔ (count (λ c. nat_eq c b':') bkp.backup_dest ≢ 1))
      × ((build_volume_restore_args rstr ≡ err plain)
          ↔ (count (λ c. nat_eq c b':') rstr.restore_src ≢ 1))
unfolding build_volume_backup_args build_volume_restore_args
build_args-err bkp vol rstr = (address-err _ bkp.backup_dest, address-err _ rstr.restore_src)
