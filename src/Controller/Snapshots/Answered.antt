-- ===== src/Controller/Snapshots/Answered.antt =====
-- What a successful `CreateSnapshot` says of the snapshot object.
use zfs_localpv.Controller.Snapshots.Labelled.{Labelled}
