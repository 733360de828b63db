-- ===== src/Tests/Volumes.antt =====
-- Volumes that the tests use.
use zfs_localpv.Prelude.{codes, [], ◌∷◌, true, false}
use zfs_localpv.Api.{VolumeInfo, ZfsVolume, ZfsSnapshot}

abbrev pub no_info : VolumeInfo
no_info = record {
  owner_node_id = [];
  pool_name = [];
  snap_name = [];
  capacity = [];
  record_size = [];
  vol_block_size = [];
  compression = [];
  dedup = [];
  a_time = [];
  log_bias = [];
  encryption = [];
  key_location = [];
  key_format = [];
  thin_provision = [];
  volume_type = [];
  quota_type = [];
  fs_type = [];
  shared = [];
  user_properties = [];
}

abbrev pub volume : ZfsVolume
volume = record {
  name = codes "pvc-1";
  labels = [];
  annotations = [];
  finalizers = [];
  deleting = false;
  spec = record no_info { owner_node_id = codes "id-a"; pool_name = codes "tank/k8s" };
  state = [];
}

-- a thick dataset with a "refquota"
abbrev pub thick : ZfsVolume
thick = record volume {
  spec = record no_info {
    pool_name = codes "tank/k8s";
    snap_name = codes "pvc-0@s";
    capacity = codes "4096";
    volume_type = codes "DATASET";
    thin_provision = codes "no";
    quota_type = codes "refquota";
    dedup = codes "off";
    user_properties = (codes "openebs.io:pv-name", codes "pvc-1") ∷ [];
  };
}

-- a clone of the volume `pvc-0`
abbrev pub clone : ZfsVolume
clone = record thick {
  labels = (codes "openebs.io/source-volume", codes "pvc-0") ∷ [];
  spec = record thick.spec { snap_name = codes "pvc-0@pvc-1" };
}

-- a volume that is being deleted
abbrev pub deleted : ZfsVolume
deleted = record thick { deleting = true; finalizers = codes "zfs.openebs.io/finalizer" ∷ [] }

abbrev pub snapshot : ZfsSnapshot
snapshot = record {
  name = codes "s";
  labels = (codes "openebs.io/persistent-volume", codes "pvc-1") ∷ [];
  finalizers = [];
  deleting = false;
  spec = thick.spec;
  state = [];
}
