-- ===== src/Controller/Create/Spec.antt =====
-- What a successful `CreateVolume` says of the volume object.
use zfs_localpv.Prelude.{
  ℕ, Str, codes, ◌==◌, ==→≡, List, [], ◌∷◌, ◌++◌, ◌≡◌, refl, ap, ◌∙◌, false, not, is_empty, Dict,
  to_lower, split, Option, none, some, arith,
}
use zfs_localpv.Prelude.Int.{ℤ}
use zfs_localpv.Prelude.Decimal.{format_int}
use zfs_localpv.Api.{ZfsVolume, ZfsSnapshot, VolumeInfo, Result, ok, err, not_found}
use zfs_localpv.Zfs.Host.{Ran, ◌>>◌}
use zfs_localpv.Scheduler.{Pattern}
use zfs_localpv.Scheduler.Params.{source_pool_allowed}
use zfs_localpv.Controller.Capacity.{get_rounded_capacity}
use zfs_localpv.Controller.Server.{Cluster, ClusterLaws, check}
use zfs_localpv.Controller.Cases.{if-cases, then-cases, or_status-cases}
use zfs_localpv.Controller.Delete.{Rpc}
use zfs_localpv.Controller.Provision.{
  Provision, provisioned, timed_out, not_provisioned, provision_volume,
}
use zfs_localpv.Controller.Provision.Ready.{IsReady, provision_volume-IsReady}
use zfs_localpv.Controller.Request.{
  Source, empty, of_snapshot, of_volume, VolumeRequest, VolumeResponse, Outside, Wanted, wanted_of,
  clone_object, inherited, validate_volume_create_req,
}
use zfs_localpv.Controller.Request.Built.{clone_object-built, validate_volume_create_req-name}
use zfs_localpv.Controller.Create.{
  provisioned_or, provision_clone, clone_from, create_vol_clone, create_snap_clone, from_source,
  create_from, volume_response, controller_create_volume, clone_pattern, snapshot_named,
  first_snapshot, bytes_or_zero,
}
use zfs_localpv.Controller.Nodes.Delivered.{
  IsDelivered, Delivers, delivered, create_zfs_volume-Delivers,
}

-- An answer is about the volume object that is there.
abbrev pub Describes :
    {S : Type 0} → (S → Str → Option ZfsVolume) → VolumeResponse → Str → S → Type 0
Describes volumes resp name s =
    (vol : ZfsVolume) × (volumes s name ≡ some vol)
    × (vol.state ≡ codes "Ready")
    × (vol.spec.owner_node_id ≡ resp.node)
    × (vol.spec.pool_name ≡ resp.pool_name)
    × (vol.spec.capacity ≡ format_int resp.capacity)

module _ {S : Type 0} {api : Cluster S} {volumes : S → Str → Option ZfsVolume}
    {snapshots : S → Str → Option ZfsSnapshot} (laws : ClusterLaws api volumes snapshots)
    (outside : Outside) (seconds : ℕ) where
  provisioned_or-Delivers :
      (name capacity : Str) (vol : ZfsVolume) (outcome : Provision × S)
      → vol.name ≡ name
      → vol.spec.capacity ≡ capacity
      → (outcome.0 ≡ provisioned → IsReady volumes vol.name vol.spec outcome.1)
      → Delivers volumes name capacity (provisioned_or api outside seconds vol outcome)
  provisioned_or-Delivers name capacity vol (provisioned, s) named sized ready =
      delivered volumes name capacity vol s named sized (ready refl)
  provisioned_or-Delivers name capacity vol (timed_out e, s) named sized ready = λ v h. cc
  provisioned_or-Delivers name capacity vol (not_provisioned e, s) named sized ready = λ v h. cc

  module _ (wanted : Wanted) (full : is_empty wanted.name ≡ false) where
    provision_clone-Delivers :
        (labels : Dict Str) (spec : VolumeInfo) (snap_name : Str) (built : Result ZfsVolume) (s : S)
        → clone_object wanted labels ≡ built
        → spec.capacity ≡ format_int wanted.size
        → Delivers volumes wanted.name
            (format_int wanted.size)
            (provision_clone api outside seconds spec snap_name built s)
    unfolding inherited
    provision_clone-Delivers labels spec snap_name (err e) s eq sized = λ v h. cc
    provision_clone-Delivers labels spec snap_name (ok vol) s eq sized =
        let clone = inherited vol spec snap_name in
        provisioned_or-Delivers wanted.name (format_int wanted.size) clone
          (provision_volume api seconds clone s) (clone_object-built wanted labels vol full eq).1
          sized (provision_volume-IsReady laws seconds clone s)

    clone_from-Delivers :
        (pattern : Pattern) (poolname : Str) (labels : Dict Str) (spec : VolumeInfo)
        (snap_name : Str) (s : S)
        → Delivers volumes wanted.name
            (format_int wanted.size)
            (clone_from api outside seconds wanted pattern poolname labels spec snap_name s)
    clone_from-Delivers pattern poolname labels spec snap_name s =
        let P : Ran S ZfsVolume → Type 0 = Delivers volumes wanted.name (format_int wanted.size) in
        if-cases P (not (source_pool_allowed spec.pool_name poolname pattern)) _ _ (λ _ v h. cc)
          (λ _.
            if-cases P (not (spec.capacity == format_int wanted.size)) _ _ (λ _ v h. cc)
              (λ same.
                provision_clone-Delivers labels spec snap_name (clone_object wanted labels) s refl
                  (==→≡ spec.capacity (format_int wanted.size) (ground arith))))

    from_source-Delivers :
        (req : VolumeRequest) (source : Source) (s : S)
        → Delivers volumes wanted.name
            (format_int wanted.size)
            (from_source api outside seconds req wanted source s)
    unfolding create_vol_clone create_snap_clone
    from_source-Delivers req empty s =
        create_zfs_volume-Delivers laws outside seconds wanted full req s
    from_source-Delivers req (of_snapshot id) s =
        let P : Ran S ZfsVolume → Type 0 = Delivers volumes wanted.name (format_int wanted.size) in
        then-cases P (clone_pattern api outside seconds req s) _
          (λ pattern _.
            then-cases P (snapshot_named api outside seconds (first_snapshot (split b'@' id)) _) _
              (λ snap _. clone_from-Delivers pattern _ [] snap.spec (to_lower id) _) (λ e v h. cc))
          (λ e v h. cc)
    from_source-Delivers req (of_volume id) s =
        let P : Ran S ZfsVolume → Type 0 = Delivers volumes wanted.name (format_int wanted.size) in
        then-cases P (clone_pattern api outside seconds req s) _
          (λ pattern _.
            or_status-cases P not_found (api.read_volume id _) _
              (λ vol _.
                clone_from-Delivers pattern _ ((codes "openebs.io/source-volume", vol.name) ∷ [])
                  vol.spec (vol.name ++ (codes "@" ++ wanted.name)) _)
              (λ e v h. cc))
          (λ e v h. cc)

  volume_response-Describes :
      (req : VolumeRequest) (vol : ZfsVolume) (s : S)
      → IsDelivered volumes
          (to_lower req.name)
          (format_int (get_rounded_capacity (bytes_or_zero req.required_bytes)))
          vol
          s
      → Describes volumes (volume_response api outside seconds req vol) (to_lower req.name) s
  volume_response-Describes req vol s ((found, there, spec, ready), sized) = (
    found,
    there,
    ready,
    ap (λ info. info.owner_node_id) spec,
    ap (λ info. info.pool_name) spec,
    ap (λ info. info.capacity) spec ∙ sized,
  )

  create_from-Delivers :
      (req : VolumeRequest) (bytes : Option ℤ) (s : S)
      → is_empty (to_lower req.name) ≡ false
      → Delivers volumes
          (to_lower req.name)
          (format_int (get_rounded_capacity (bytes_or_zero bytes)))
          (create_from api outside seconds req bytes s)
  unfolding wanted_of
  create_from-Delivers req none s full = λ v h. cc
  create_from-Delivers req (some bytes) s full =
      from_source-Delivers (wanted_of outside.helpers req bytes) full req req.source s

  -- Where `CreateVolume` answers with success, the volume object is there and is ready, and it is
  -- on the node, in the pool and of the capacity that the answer says: for a new volume, for one
  -- that was there, and for a clone of a volume or a snapshot.
  pub controller_create_volume-Describes :
      (capabilities : List Rpc) (req : VolumeRequest) (s : S) (resp : VolumeResponse)
      → (controller_create_volume api outside seconds capabilities req s).0 ≡ ok resp
      → Describes volumes resp
          (to_lower req.name)
          (controller_create_volume api outside seconds capabilities req s).1
  unfolding controller_create_volume
  controller_create_volume-Describes capabilities req s resp =
      let Q : Ran S VolumeResponse → Type 0 =
        λ r. r.0 ≡ ok resp → Describes volumes resp (to_lower req.name) r.1 in
      let P : Ran S ZfsVolume → Type 0 =
        Delivers volumes (to_lower req.name)
          (format_int (get_rounded_capacity (bytes_or_zero req.required_bytes))) in
      let first = check (validate_volume_create_req capabilities req) s in
      let made = first >> λ _ t. create_from api outside seconds req req.required_bytes t in
      let delivers : P made =
        then-cases P first _
          (λ _ valid.
            create_from-Delivers req req.required_bytes s
              (validate_volume_create_req-name capabilities req valid))
          (λ e v h. cc) in
      then-cases Q made _
        (λ vol eq h.
          let answer : volume_response api outside seconds req vol ≡ resp = cc in
          rw (← answer) (volume_response-Describes req vol made.1 (delivers vol eq)))
        (λ e h. cc)
