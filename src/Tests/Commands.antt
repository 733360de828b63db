-- ===== src/Tests/Commands.antt =====
-- The arguments for one volume.
use zfs_localpv.Prelude.{
  arith, get_or, Str, codes, ◌==◌, List, [], ◌∷◌, ◌++◌, ◌≡◌, ◌≢◌, ◌↔◌, refl, false, some, none,
  is_empty, if◌then◌else◌, count, nat_eq,
}
use zfs_localpv.Api.{ZfsRestore, ZfsBackup, err, plain}
use zfs_localpv.Tests.Volumes.{thick}
use zfs_localpv.Zfs.Args.{
  volume_path, quota_property, build_zvol_create_args, build_dataset_create_args,
}
use zfs_localpv.Zfs.Args.Parse.{flag, read}
use zfs_localpv.Zfs.Args.Options.{
  every_value, common_properties, encryption_properties, read-build_zvol_create_args,
}
use zfs_localpv.Zfs.Args.Transfer.{build_volume_backup_args, build_volume_restore_args}
use zfs_localpv.Zfs.Args.Address.{build_args-err}

build_dataset_create_args-run :
    build_dataset_create_args thick
    ≡ codes "create"
      ∷ codes "-o"
      ∷ codes "refquota=4096"
      ∷ codes "-o"
      ∷ codes "refreservation=4096"
      ∷ codes "-o"
      ∷ codes "dedup=off"
      ∷ codes "-o"
      ∷ codes "openebs.io:pv-name=pvc-1"
      ∷ codes "-o"
      ∷ codes "mountpoint=legacy"
      ∷ codes "tank/k8s/pvc-1"
      ∷ []
unfolding build_dataset_create_args ◌==◌ quota_property get_or
build_dataset_create_args-run = refl

abbrev restore : ZfsRestore
restore = record {
  name = codes "r";
  deleting = false;
  volume_name = codes "pvc-1";
  owner_node_id = codes "a";
  restore_src = codes "h:9";
  vol_spec = thick.spec;
  status = codes "Init";
}

abbrev backup : ZfsBackup
backup = record {
  name = codes "b";
  finalizers = [];
  deleting = false;
  volume_name = codes "pvc-1";
  owner_node_id = codes "a";
  snap_name = codes "s2";
  prev_snap_name = codes "s1";
  backup_dest = codes "h";
  status = codes "Init";
}

read-build_zvol_create_args_example :
    (args : List Str) × (build_zvol_create_args thick ≡ codes "create" ∷ args)
    × (read flag args ≡ record {
      options =
          common_properties thick.spec
          ++ (encryption_properties thick.spec ++ every_value thick.spec.user_properties);
      sparse = thick.spec.thin_provision == codes "yes";
      volsize = if is_empty thick.spec.capacity then none else some thick.spec.capacity;
      blocksize =
          if is_empty thick.spec.vol_block_size then none else some thick.spec.vol_block_size;
      operands = volume_path thick ∷ [];
    })
read-build_zvol_create_args_example = read-build_zvol_create_args thick

build_args-err_example :
    ((build_volume_backup_args backup thick ≡ err plain)
      ↔ (count (λ c. nat_eq c b':') backup.backup_dest ≢ 1))
    × ((build_volume_restore_args restore ≡ err plain)
        ↔ (count (λ c. nat_eq c b':') restore.restore_src ≢ 1))
build_args-err_example = build_args-err backup thick restore

abbrev refused_restore : ZfsRestore
refused_restore = record restore { restore_src = codes "h" }

no_colon : count (λ c. nat_eq c b':') refused_restore.restore_src ≢ 1
no_colon = ground arith
