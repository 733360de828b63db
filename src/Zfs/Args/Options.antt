-- ===== src/Zfs/Args/Options.antt =====
-- What `zfs` reads of the arguments of the create and clone commands.
use zfs_localpv.Prelude.{
  Str, codes, ◌==◌, List, [], ◌∷◌, ◌++◌, ◌≡◌, refl, ◌∙◌, subst, get_or, Bool, true, false, none,
  some, is_empty, if◌then◌else◌, arith, ◌||◌, append_assoc, append-nil, Bool-cases, inl, inr,
}
use zfs_localpv.Api.{VolumeInfo, ZfsVolume}
use zfs_localpv.Zfs.Args.{
  dataset, volume_path, assign, opt, user_opts, is_dataset, quota_property, reservation_property,
  thick_opts, build_zvol_create_args, build_dataset_create_args, build_clone_create_args,
}
use zfs_localpv.Zfs.Args.Parse.{only_operands, add_options, flag, read}

-- the properties with a value, as `key=value`
unfoldable pub set_values : List (Str × Str) → List Str
set_values [] = []
set_values ((key, value) ∷ props) =
    if is_empty value then set_values props else assign key value ∷ set_values props

abbrev pub every_value : List (Str × Str) → List Str
every_value [] = []
every_value ((key, value) ∷ props) = assign key value ∷ every_value props

-- the names of a quota and of a reservation, which a quota type "refquota" limits to the dataset itself
abbrev pub quota_name : Str → Str
quota_name quota_type = if quota_type == codes "refquota" then codes "refquota" else codes "quota"

abbrev pub reservation_name : Str → Str
reservation_name quota_type =
    if quota_type == codes "refquota" then codes "refreservation" else codes "reservation"

-- What a dataset is created with: quota, record size, access times, a reservation if it is thick.
abbrev pub dataset_properties : VolumeInfo → List Str
dataset_properties spec =
    set_values (
      (quota_name spec.quota_type, spec.capacity)
      ∷ (codes "recordsize", spec.record_size)
      ∷ (codes "atime", spec.a_time)
      ∷ [])
    ++ (if spec.thin_provision == codes "no"
        then assign (reservation_name spec.quota_type) spec.capacity ∷ []
        else [])

-- the same, by the driver's own functions
abbrev built_properties : VolumeInfo → List Str
built_properties spec =
    set_values (
      (quota_property spec.quota_type, spec.capacity)
      ∷ (codes "recordsize", spec.record_size)
      ∷ (codes "atime", spec.a_time)
      ∷ [])
    ++ (if spec.thin_provision == codes "no"
        then reservation_property spec.quota_type spec.capacity ∷ []
        else [])

pub quota_property-quota_name :
    (quota_type : Str) → quota_property quota_type ≡ quota_name quota_type
unfolding quota_property
quota_property-quota_name quota_type = refl

reservation_property-reservation_name :
    (quota_type capacity : Str)
    → reservation_property quota_type capacity ≡ assign (reservation_name quota_type) capacity
unfolding reservation_property quota_property get_or ◌==◌
reservation_property-reservation_name quota_type capacity =
    elim (Bool-cases (quota_type == codes "refquota")) [ inl h ↦ rw h refl | inr h ↦ rw h refl ]

built_properties-dataset_properties :
    (spec : VolumeInfo) → built_properties spec ≡ dataset_properties spec
built_properties-dataset_properties spec =
    rw
      (
        quota_property-quota_name spec.quota_type,
        reservation_property-reservation_name spec.quota_type spec.capacity,
      )
      refl

abbrev pub common_properties : VolumeInfo → List Str
common_properties spec = set_values (
    (codes "dedup", spec.dedup)
    ∷ (codes "compression", spec.compression)
    ∷ (codes "logbias", spec.log_bias)
    ∷ [])

abbrev pub encryption_properties : VolumeInfo → List Str
encryption_properties spec = set_values (
    (codes "encryption", spec.encryption)
    ∷ (codes "keylocation", spec.key_location)
    ∷ (codes "keyformat", spec.key_format)
    ∷ [])

pub set_values-three :
    (a b c : Str × Str)
    → set_values (a ∷ b ∷ c ∷ [])
      ≡ set_values (a ∷ []) ++ (set_values (b ∷ []) ++ set_values (c ∷ []))
unfolding set_values
set_values-three (k, a) (l, b) (m, c) = ground arith

pub read-o :
    (value : Str) (rest : List Str)
    → read flag (codes "-o" ∷ value ∷ rest) ≡ add_options (value ∷ []) (read flag rest)
unfolding read
read-o value rest = refl

pub read-opt :
    (key value : Str) (rest : List Str)
    → read flag (opt key value ++ rest)
      ≡ add_options (set_values ((key, value) ∷ [])) (read flag rest)
unfolding set_values
read-opt key [] rest = refl
read-opt key (c ∷ value) rest = read-o (assign key (c ∷ value)) rest

pub read-thick_opts :
    (spec : VolumeInfo) (property : Str) (rest : List Str)
    → read flag (thick_opts spec property ++ rest)
      ≡ add_options
          (if spec.thin_provision == codes "no" then property ∷ [] else [])
          (read flag rest)
read-thick_opts spec property rest = elim (Bool-cases (spec.thin_provision == codes "no")) [
  | inl h ↦ rw h (read-o property rest)
  | inr h ↦ rw h
]

pub read-user_opts :
    (props : List (Str × Str)) (rest : List Str)
    → read flag (user_opts props ++ rest) ≡ add_options (every_value props) (read flag rest)
read-user_opts [] rest = refl
read-user_opts ((key, value) ∷ props) rest =
    read-o (assign key value) (user_opts props ++ rest) ∙ rw (read-user_opts props rest)

read-sparse :
    (b : Bool) (rest : List Str)
    → read flag ((if b then codes "-s" ∷ [] else []) ++ rest)
      ≡ record (read flag rest) { sparse = b || (read flag rest).sparse }
unfolding read
read-sparse true rest = refl
read-sparse false rest = refl

read-size :
    (v : Str) (rest : List Str)
    → read flag ((if is_empty v then [] else codes "-V" ∷ v ∷ []) ++ rest)
      ≡ record (read flag rest) {
        volsize = if is_empty v then (read flag rest).volsize else some v;
      }
unfolding read
read-size [] rest = refl
read-size (c ∷ v) rest = refl

read-block :
    (v : Str) (rest : List Str)
    → read flag ((if is_empty v then [] else codes "-b" ∷ v ∷ []) ++ rest)
      ≡ record (read flag rest) {
        blocksize = if is_empty v then (read flag rest).blocksize else some v;
      }
unfolding read
read-block [] rest = refl
read-block (c ∷ v) rest = refl

or_false : (b : Bool) → (b || false) ≡ b
or_false true = refl
or_false false = refl

-- A path with a slash is no flag.
pub read_path :
    (pool name : Str) (rest : List Str)
    → read flag (dataset pool name ∷ rest) ≡ only_operands (dataset pool name ∷ rest)
unfolding read
read_path [] name rest = refl
read_path (a ∷ []) name rest = ground arith
read_path (a ∷ b ∷ []) name rest = ground arith
read_path (a ∷ b ∷ c ∷ pool) name rest = ground arith

ruleset reading =
    (append_assoc, read-opt, read-thick_opts, read-user_opts, read-o, read_path, set_values-three)

built_dataset_args :
    (vol : ZfsVolume)
    → (args : List Str) × (build_dataset_create_args vol ≡ codes "create" ∷ args)
      × (read flag args
          ≡ add_options
              (built_properties vol.spec
                ++ (common_properties vol.spec
                    ++ (encryption_properties vol.spec
                        ++ (every_value vol.spec.user_properties
                            ++ codes "mountpoint=legacy" ∷ []))))
              (only_operands (volume_path vol ∷ [])))
unfolding build_dataset_create_args
built_dataset_args vol = (_, refl, simp reading)

pub read-build_dataset_create_args :
    (vol : ZfsVolume)
    → (args : List Str) × (build_dataset_create_args vol ≡ codes "create" ∷ args)
      × (read flag args
          ≡ add_options
              (dataset_properties vol.spec
                ++ (common_properties vol.spec
                    ++ (encryption_properties vol.spec
                        ++ (every_value vol.spec.user_properties
                            ++ codes "mountpoint=legacy" ∷ []))))
              (only_operands (volume_path vol ∷ [])))
read-build_dataset_create_args vol =
    subst
      (λ properties.
        (args : List Str) × (build_dataset_create_args vol ≡ codes "create" ∷ args)
        × (read flag args
            ≡ add_options
                (properties
                  ++ (common_properties vol.spec
                      ++ (encryption_properties vol.spec
                          ++ (every_value vol.spec.user_properties
                              ++ codes "mountpoint=legacy" ∷ []))))
                (only_operands (volume_path vol ∷ []))))
      (built_properties-dataset_properties vol.spec) (built_dataset_args vol)

built_clone_args :
    (vol : ZfsVolume)
    → (args : List Str) × (build_clone_create_args vol ≡ codes "clone" ∷ args)
      × (read flag args
          ≡ add_options
              ((if is_dataset vol.spec
                  then built_properties vol.spec ++ codes "mountpoint=legacy" ∷ []
                  else [])
                ++ (common_properties vol.spec ++ every_value vol.spec.user_properties))
              (only_operands
                (dataset vol.spec.pool_name vol.spec.snap_name ∷ volume_path vol ∷ [])))
unfolding build_clone_create_args
built_clone_args vol = elim (Bool-cases (is_dataset vol.spec)) [
  | inl h ↦ (_, refl, rw h (simp reading))
  | inr h ↦ (_, refl, rw h (simp (reading, append-nil)))
]

-- `zfs clone` is given the properties of a dataset and a legacy mount point if the volume is one,
-- the common ones and the user properties, in this order, and as operands the source snapshot and
-- the volume's path. It is given no encryption property: a clone inherits these.
pub read-build_clone_create_args :
    (vol : ZfsVolume)
    → (args : List Str) × (build_clone_create_args vol ≡ codes "clone" ∷ args)
      × (read flag args
          ≡ add_options
              ((if is_dataset vol.spec
                  then dataset_properties vol.spec ++ codes "mountpoint=legacy" ∷ []
                  else [])
                ++ (common_properties vol.spec ++ every_value vol.spec.user_properties))
              (only_operands
                (dataset vol.spec.pool_name vol.spec.snap_name ∷ volume_path vol ∷ [])))
read-build_clone_create_args vol =
    subst
      (λ properties.
        (args : List Str) × (build_clone_create_args vol ≡ codes "clone" ∷ args)
        × (read flag args
            ≡ add_options
                ((if is_dataset vol.spec then properties ++ codes "mountpoint=legacy" ∷ [] else [])
                  ++ (common_properties vol.spec ++ every_value vol.spec.user_properties))
                (only_operands
                  (dataset vol.spec.pool_name vol.spec.snap_name ∷ volume_path vol ∷ []))))
      (built_properties-dataset_properties vol.spec) (built_clone_args vol)

-- `zfs create` of a zvol is given the common properties, the encryption ones and the user
-- properties, in this order, and the volume's path as its one operand; it is sparse exactly where
-- thin provisioning is "yes", and size and block size are given where they have a value.
pub read-build_zvol_create_args :
    (vol : ZfsVolume)
    → (args : List Str) × (build_zvol_create_args vol ≡ codes "create" ∷ args)
      × (read flag args ≡ record {
        options =
            common_properties vol.spec
            ++ (encryption_properties vol.spec ++ every_value vol.spec.user_properties);
        sparse = vol.spec.thin_provision == codes "yes";
        volsize = if is_empty vol.spec.capacity then none else some vol.spec.capacity;
        blocksize = if is_empty vol.spec.vol_block_size then none else some vol.spec.vol_block_size;
        operands = volume_path vol ∷ [];
      })
unfolding build_zvol_create_args
read-build_zvol_create_args vol =
    (_, refl, simp (reading, read-sparse, read-size, read-block, or_false, append-nil))
