-- ===== src/Controller/Nodes/Delivered.antt =====
-- The volume that `CreateZFSVolume` returns.
use zfs_localpv.Prelude.{
  ℕ, Str, codes, ◌==◌, ==→≡, List, [], ◌∷◌, ◌≡◌, refl, ◌∙◌, subst, false, not, if◌then◌else◌,
  is_empty, lookup, Option, some, arith,
}
use zfs_localpv.Prelude.Int.{ℤ, pos}
use zfs_localpv.Prelude.Decimal.{format_int}
use zfs_localpv.Api.{ZfsVolume, ZfsSnapshot, ok, err, internal, invalid_argument}
use zfs_localpv.Zfs.Host.{Ran}
use zfs_localpv.Scheduler.{Pattern}
use zfs_localpv.Controller.Server.{Cluster, ClusterLaws, Got}
use zfs_localpv.Controller.Cases.{if-cases, then-cases, or_status-cases}
use zfs_localpv.Controller.Choice.{get_node_id}
use zfs_localpv.Controller.Provision.{
  Provision, provisioned, timed_out, not_provisioned, provision_volume,
}
use zfs_localpv.Controller.Provision.Ready.{IsReady, provision_volume-IsReady}
use zfs_localpv.Controller.Request.{VolumeRequest, Outside, Wanted, volume_object}
use zfs_localpv.Controller.Request.Built.{volume_object-built, placed_object-built}
use zfs_localpv.Controller.Nodes.{
  object_on, pool_on, next_node, try_object, try_nodes, is_reserving, create_on_nodes, create_again,
  if_got, wanted_pattern, candidates, build_and_try, wait_if_asked, create_zfs_volume,
}

module _ {S : Type 0} (volumes : S → Str → Option ZfsVolume) (name capacity : Str) where
  -- The object that is returned is the one that is there, as far as the spec goes, and that one is
  -- ready and has the capacity.
  abbrev pub IsDelivered : ZfsVolume → S → Type 0
  IsDelivered vol s = IsReady volumes name vol.spec s × (vol.spec.capacity ≡ capacity)

  abbrev pub Delivers : Ran S ZfsVolume → Type 0
  Delivers ran = (vol : ZfsVolume) → ran.0 ≡ ok vol → IsDelivered vol ran.1

  -- An object that has not been provisioned yet.
  abbrev Fits : Ran S ZfsVolume → Type 0
  Fits ran = (vol : ZfsVolume) → ran.0 ≡ ok vol → (vol.name ≡ name) × (vol.spec.capacity ≡ capacity)

  pub delivered :
      (vol : ZfsVolume) (s : S)
      → vol.name ≡ name
      → vol.spec.capacity ≡ capacity
      → IsReady volumes vol.name vol.spec s
      → Delivers (ok vol, s)
  delivered vol s named sized ready found h =
      let one : vol ≡ found = cc in
      rw (← one) (subst (λ n. IsReady volumes n vol.spec s) named ready, sized)

module _ {S : Type 0} {api : Cluster S} {volumes : S → Str → Option ZfsVolume}
    {snapshots : S → Str → Option ZfsSnapshot} (laws : ClusterLaws api volumes snapshots)
    (outside : Outside) (seconds : ℕ) where
  open laws use {read_volume_keeps, read_volume_got}

  next_node-Delivers :
      (own name capacity : Str) (vol : ZfsVolume) (outcome : Provision × S)
      (others : S → Ran S ZfsVolume)
      → vol.name ≡ name
      → vol.spec.capacity ≡ capacity
      → (outcome.0 ≡ provisioned → IsReady volumes vol.name vol.spec outcome.1)
      → ((t : S) → Delivers volumes name capacity (others t))
      → Delivers volumes name capacity (next_node api outside seconds own vol outcome others)
  next_node-Delivers own name capacity vol (provisioned, s) others named sized ready next =
      delivered volumes name capacity vol s named sized (ready refl)
  next_node-Delivers own name capacity vol (timed_out e, s) others named sized ready next =
      λ v h. cc
  next_node-Delivers own name capacity vol (not_provisioned e, s) others named sized ready next =
      next s

  try_object-Delivers :
      (own name capacity : Str) (ran : Ran S ZfsVolume) (others : S → Ran S ZfsVolume)
      → Fits volumes name capacity ran
      → ((t : S) → Delivers volumes name capacity (others t))
      → Delivers volumes name capacity (try_object api outside seconds own ran others)
  try_object-Delivers own name capacity (err e, s) others fits next = next s
  try_object-Delivers own name capacity (ok vol, s) others fits next =
      let (named, sized) = fits vol refl in
      next_node-Delivers own name capacity vol (provision_volume api seconds vol s) others named
        sized (provision_volume-IsReady laws seconds vol s) next

  object_on-Fits :
      (wanted : Wanted) (pattern : Pattern) (min_free : ℤ) (vol : ZfsVolume) (node : Str) (s : S)
      → Fits volumes vol.name vol.spec.capacity
          (object_on api outside seconds wanted pattern min_free vol node s)
  object_on-Fits wanted pattern min_free vol node s =
      let P : Ran S ZfsVolume → Type 0 = Fits volumes vol.name vol.spec.capacity in
      then-cases P (get_node_id api node s) _
        (λ nodeid _.
          then-cases P (pool_on api outside seconds wanted pattern min_free nodeid _) _
            (λ pool _ placed eq. placed_object-built vol placed nodeid pool eq) (λ e v h. cc))
        (λ e v h. cc)

  try_nodes-Delivers :
      (wanted : Wanted) (pattern : Pattern) (min_free : ℤ) (vol : ZfsVolume) (nodes : List Str)
      (s : S)
      → Delivers volumes vol.name vol.spec.capacity
          (try_nodes api outside seconds wanted pattern min_free vol nodes s)
  unfolding try_nodes
  try_nodes-Delivers wanted pattern min_free vol [] s = λ v h. cc
  try_nodes-Delivers wanted pattern min_free vol (node ∷ nodes) s =
      try_object-Delivers wanted.name vol.name vol.spec.capacity
        (object_on api outside seconds wanted pattern min_free vol node s) _
        (object_on-Fits wanted pattern min_free vol node s)
        (λ t. try_nodes-Delivers wanted pattern min_free vol nodes t)

  module _ (wanted : Wanted) (full : is_empty wanted.name ≡ false) where
    build_and_try-Delivers :
        (pattern : Pattern) (nodes : List Str) (s : S)
        → Delivers volumes wanted.name
            (format_int wanted.size)
            (build_and_try api outside seconds wanted pattern nodes s)
    build_and_try-Delivers pattern nodes s =
        let P : Ran S ZfsVolume → Type 0 = Delivers volumes wanted.name (format_int wanted.size) in
        let object : Ran S ZfsVolume = (volume_object wanted, s) in
        let min_free : ℤ = if is_reserving api outside seconds wanted then wanted.size else pos 0 in
        or_status-cases P internal object _
          (λ vol eq.
            let (_, named, sized) = volume_object-built wanted vol full eq in
            let ran = try_nodes api outside seconds wanted pattern min_free vol nodes s in
            subst (λ n. Delivers volumes n (format_int wanted.size) ran) named
              (subst (λ c. Delivers volumes vol.name c ran) sized
                (try_nodes-Delivers wanted pattern min_free vol nodes s)))
          (λ e v h. cc)

    create_on_nodes-Delivers :
        (req : VolumeRequest) (s : S)
        → Delivers volumes wanted.name
            (format_int wanted.size)
            (create_on_nodes api outside seconds req wanted s)
    create_on_nodes-Delivers req s =
        let P : Ran S ZfsVolume → Type 0 = Delivers volumes wanted.name (format_int wanted.size) in
        or_status-cases P invalid_argument (wanted_pattern api outside seconds wanted s) _
          (λ pattern _.
            then-cases P (candidates api outside seconds req wanted pattern s)
              (build_and_try api outside seconds wanted pattern)
              (λ nodes _. build_and_try-Delivers pattern nodes _) (λ e v h. cc))
          (λ e v h. cc)

    create_again-Delivers :
        (req : VolumeRequest) (vol : ZfsVolume) (s : S)
        → volumes s wanted.name ≡ some vol
        → Delivers volumes wanted.name
            (format_int wanted.size)
            (create_again api outside seconds req wanted vol s)
    create_again-Delivers req vol s there =
        let P : Ran S ZfsVolume → Type 0 = Delivers volumes wanted.name (format_int wanted.size) in
        if-cases P vol.deleting _ _
          (λ _.
            then-cases P
              (wait_if_asked api outside seconds wanted (lookup (codes "wait") wanted.parameters) s)
              (λ _ t. create_on_nodes api outside seconds req wanted t)
              (λ _ _. create_on_nodes-Delivers req _) (λ e v h. cc))
          (λ _.
            if-cases P (not (vol.spec.capacity == format_int wanted.size)) _ _ (λ _ v h. cc)
              (λ sized.
                if-cases P (not (vol.state == codes "Ready")) _ _ (λ _ v h. cc)
                  (λ ready found h.
                    let one : vol ≡ found = cc in
                    rw (← one) (
                      (vol, there, refl, ==→≡ vol.state (codes "Ready") (ground arith)),
                      ==→≡ vol.spec.capacity (format_int wanted.size) (ground arith),
                    ))))

    if_got-Delivers :
        (req : VolumeRequest) (ran : Ran S ZfsVolume)
        → ((vol : ZfsVolume) → ran.0 ≡ ok vol → volumes ran.1 wanted.name ≡ some vol)
        → Delivers volumes wanted.name (format_int wanted.size) (
            if_got api outside seconds ran
              (create_again api outside seconds req wanted)
              (create_on_nodes api outside seconds req wanted))
    if_got-Delivers req (ok vol, s) there = create_again-Delivers req vol s (there vol refl)
    if_got-Delivers req (err e, s) there = create_on_nodes-Delivers req s

    pub create_zfs_volume-Delivers :
        (req : VolumeRequest) (s : S)
        → Delivers volumes wanted.name
            (format_int wanted.size)
            (create_zfs_volume api outside seconds req wanted s)
    unfolding create_zfs_volume
    create_zfs_volume-Delivers req s = if_got-Delivers req (api.read_volume wanted.name s) λ vol eq.
        (read_volume_keeps wanted.name s).0 wanted.name
        ∙ subst (Got volumes wanted.name s) eq (read_volume_got wanted.name s)
