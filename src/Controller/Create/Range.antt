-- ===== src/Controller/Create/Range.antt =====
-- A request without a capacity range, which CSI allows.
use zfs_localpv.Prelude.{ℕ, List, ◌≡◌, none}
use zfs_localpv.Api.{ok, err, panicked}
use zfs_localpv.Controller.Server.{Cluster}
use zfs_localpv.Controller.Delete.{Rpc}
use zfs_localpv.Controller.Request.{VolumeRequest, Outside, validate_volume_create_req}
use zfs_localpv.Controller.Create.{controller_create_volume}

-- A request that `validateVolumeCreateReq` accepts and that has no capacity range makes
-- `CreateVolume` dereference a nil pointer, from every source and in every state.
pub controller_create_volume-panicked :
    {S : Type 0} (api : Cluster S) (outside : Outside) (seconds : ℕ) (capabilities : List Rpc)
    (req : VolumeRequest) (s : S)
    → validate_volume_create_req capabilities req ≡ ok tt
    → req.required_bytes ≡ none
    → (controller_create_volume api outside seconds capabilities req s).0 ≡ err panicked
unfolding controller_create_volume
controller_create_volume-panicked api outside seconds capabilities req s valid no_range =
    rw (valid, no_range)
