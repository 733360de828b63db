-- ===== src/Zfs/Mount/Once.antt =====
-- Which mount requests are let through.
use zfs_localpv.Prelude.{
  Str, codes, ◌==◌, ==→≡, List, [], ◌∷◌, ◌≡◌, refl, ap, Bool, true, false, ◌&&◌, not, any, is_empty,
  ◌⊎◌, inl, inr, arith,
}
use zfs_localpv.Api.{ZfsVolume, Result, ok, err, Error, status, internal}
use zfs_localpv.Zfs.Host.{Ran, ◌>>◌, Exec}
use zfs_localpv.Mgmt.Server.{is_volume_ready}
use zfs_localpv.Controller.Cases.{if-cases}
use zfs_localpv.Zfs.Mount.{
  Mounter, or_internal, get_volume_dev_path, check_mounts, verify_mount_request,
}

-- A volume that is mounted at the paths may be mounted at the path, or is mounted there already.
abbrev pub IsFree : ZfsVolume → Str → List Str → Bool → Type 0
IsFree vol path paths mounted =
    (mounted ≡ any (λ p. p == path) paths)
    × ((mounted ≡ true) ⊎ (paths ≡ []) ⊎ (vol.spec.shared ≡ codes "yes"))

check_mounts-IsFree :
    (vol : ZfsVolume) (path : Str) (paths : List Str) (mounted : Bool)
    → check_mounts vol path paths ≡ ok mounted
    → IsFree vol path paths mounted
unfolding check_mounts
check_mounts-IsFree vol path [] mounted = λ h. (cc, inr (inl refl))
check_mounts-IsFree vol path (first ∷ others) mounted =
    let there = any (λ p. p == path) (first ∷ others) in
    let P : Result Bool → Type 0 = λ r. r ≡ ok mounted → IsFree vol path (first ∷ others) mounted in
    if-cases P there _ _ (λ yes h. (cc, inl cc))
      (λ no.
        if-cases P (not (vol.spec.shared == codes "yes")) _ _ (λ _ h. cc)
          (λ shared h. (cc, inr (inr (==→≡ vol.spec.shared (codes "yes") (ground arith))))))

or_internal-cases :
    {S A B : Type 0} (P : Ran S B → Type 0) (ran : Ran S A) (next : A → S → Ran S B)
    → ((a : A) → ran.0 ≡ ok a → P (next a ran.1))
    → ((e : Error) → P (err e, ran.1))
    → P (or_internal ran >> next)
or_internal-cases P (ok a, s) next good bad = good a refl
or_internal-cases P (err e, s) next good bad = bad (status internal)

of_node :
    (owner node_id : Str) (empty same : Bool)
    → (owner == node_id) ≡ same
    → (not empty && not same) ≡ false
    → (empty ≡ true) ⊎ (owner ≡ node_id)
of_node owner node_id true same eq h = inl refl
of_node owner node_id false true eq h = inr (==→≡ owner node_id eq)
of_node owner node_id false false eq h = cc

module _ {S : Type 0} (exec : Exec S) (mounter : Mounter S) (node_id : Str) where
  -- If a mount request of a volume passes its checks, the volume is ready, it is of this node or has
  -- no owner, and its device was found mounted at some paths: the answer says whether the path of the
  -- request is one of them, and if it is not, then there is none of them or the volume is shared.
  pub verify_mount_request-IsFree :
      (vol : ZfsVolume) (path : Str) (s : S) (mounted : Bool)
      → (verify_mount_request exec mounter node_id vol path s).0 ≡ ok mounted
      → (is_volume_ready vol ≡ true)
        × ((is_empty vol.spec.owner_node_id ≡ true) ⊎ (vol.spec.owner_node_id ≡ node_id))
        × ((device : Str) × (t : S) × (paths : List Str) × (get_volume_dev_path exec mounter node_id
                vol s
              ≡ (ok device, t))
            × ((mounter.mounts device t).0 ≡ ok paths)
            × IsFree vol path paths mounted)
  unfolding verify_mount_request
  verify_mount_request-IsFree vol path s mounted =
      let Device : Type 0 =
        (device : Str) × (t : S) × (paths : List Str) × (get_volume_dev_path exec mounter node_id
            vol s
          ≡ (ok device, t))
        × ((mounter.mounts device t).0 ≡ ok paths)
        × IsFree vol path paths mounted in
      let Q : Ran S Bool → Type 0 = λ ran. ran.0 ≡ ok mounted → Device in
      let P : Ran S Bool → Type 0 = λ ran.
        ran.0 ≡ ok mounted
        → (is_volume_ready vol ≡ true)
          × ((is_empty vol.spec.owner_node_id ≡ true) ⊎ (vol.spec.owner_node_id ≡ node_id))
          × Device in
      if-cases P (is_empty path) _ _ (λ _ h. cc)
        (λ _.
          if-cases P
            (not (is_empty vol.spec.owner_node_id) && not (vol.spec.owner_node_id == node_id)) _ _
            (λ _ h. cc)
            (λ own.
              if-cases P (not (is_volume_ready vol)) _ _ (λ _ h. cc)
                (λ ready h. (
                  ground arith,
                  of_node vol.spec.owner_node_id node_id (is_empty vol.spec.owner_node_id)
                      (vol.spec.owner_node_id == node_id) refl own,
                  or_internal-cases Q (get_volume_dev_path exec mounter node_id vol s) _
                      (λ device found.
                        or_internal-cases Q
                          (mounter.mounts device (get_volume_dev_path exec mounter node_id vol s).1)
                          _
                          (λ paths listed g. (
                            device,
                            (get_volume_dev_path exec mounter node_id vol s).1,
                            paths,
                            ap (λ r. (r, (get_volume_dev_path exec mounter node_id vol s).1)) found,
                            listed,
                            check_mounts-IsFree vol path paths mounted g,
                          ))
                          (λ e g. cc))
                      (λ e g. cc) h,
                ))))
