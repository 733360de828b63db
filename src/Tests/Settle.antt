-- ===== src/Tests/Settle.antt =====
-- The node agent's operations on the node of `Node`.
use zfs_localpv.Prelude.{codes, ◌==◌, ◌≡◌, ◌↔◌, refl, true, false, All, ◌∙◌, get_or, lookup}
use zfs_localpv.Api.{ok}
use zfs_localpv.Zfs.Args.{
  snapshot_path, build_dataset_create_args, build_zfs_snap_create_args, build_clone_create_args,
  build_volume_destroy_args,
}
use zfs_localpv.Zfs.Args.Parse.{read}
use zfs_localpv.Zfs.Host.{succeeded, below}
use zfs_localpv.Zfs.Volumes.{create_volume, create_clone, destroy_volume, source_volume}
use zfs_localpv.Zfs.Volumes.Create.{create_volume_again}
use zfs_localpv.Zfs.Volumes.Clone.{clone_datasets, create_clone-exists}
use zfs_localpv.Zfs.Volumes.Destroy.{NamesOne, destroy_volume-others}
use zfs_localpv.Zfs.UserProperty.{validate, accepted, validate_iff}
use zfs_localpv.Mgmt.Server.{is_volume_ready}
use zfs_localpv.Mgmt.Volumes.{sync_zv}
use zfs_localpv.Mgmt.Settled.{Settled}
use zfs_localpv.Tests.Volumes.{thick, clone, deleted}
use zfs_localpv.Tests.Node.{
  run, there, renew, write, run-ZfsCommand, run-found, empty_node, full_node,
}

create-succeeded : succeeded (create_volume run thick empty_node) ≡ true
unfolding create_volume run ◌==◌ build_dataset_create_args
create-succeeded = refl

create_volume_again_example :
    let t = (create_volume run thick empty_node).1 in create_volume run thick t ≡ (ok tt, t)
create_volume_again_example =
    create_volume_again run-ZfsCommand (λ s name h. run-found s name ∙ h) thick empty_node
      create-succeeded

clone-succeeded : succeeded (create_clone run renew clone empty_node) ≡ true
unfolding create_clone run ◌==◌ lookup snapshot_path build_zfs_snap_create_args read get_or
    build_clone_create_args
clone-succeeded = refl

create_clone-exists_example :
    All
      (λ name. there (create_clone run renew clone empty_node).1 name ≡ true)
      (clone_datasets clone (source_volume clone))
create_clone-exists_example =
    create_clone-exists run-ZfsCommand renew (λ _ _ _ _. refl) clone empty_node clone-succeeded

destroy-succeeded : succeeded (destroy_volume run thick full_node) ≡ true
unfolding destroy_volume run ◌==◌ below build_volume_destroy_args lookup
destroy-succeeded = refl

apart :
    All
      (λ name. below name (codes "tank/k8s/pvc-10") ≡ false)
      (clone_datasets thick (source_volume thick))
unfolding below ◌==◌ lookup
apart = (refl, tt)

one : NamesOne thick (source_volume thick)
unfolding lookup ◌==◌
one = refl

destroy_volume-others_example :
    there (destroy_volume run thick full_node).1 (codes "tank/k8s/pvc-10")
    ≡ there full_node (codes "tank/k8s/pvc-10")
destroy_volume-others_example =
    destroy_volume-others run-ZfsCommand thick full_node (codes "tank/k8s/pvc-10") one apart

validate_iff_example :
    (validate thick.spec ≡ ok tt)
    ↔ All (λ prop. accepted prop.0 prop.1 ≡ true) thick.spec.user_properties
validate_iff_example = validate_iff thick.spec

sync-succeeded : succeeded (sync_zv run renew write (codes "a") thick empty_node) ≡ true
unfolding sync_zv run write ◌==◌ validate is_volume_ready create_clone lookup
    build_clone_create_args
sync-succeeded = refl

sync_deleted-succeeded : succeeded (sync_zv run renew write (codes "a") deleted full_node) ≡ true
unfolding sync_zv run write ◌==◌ below destroy_volume build_volume_destroy_args lookup
sync_deleted-succeeded = refl
