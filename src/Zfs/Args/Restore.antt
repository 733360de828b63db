-- ===== src/Zfs/Args/Restore.antt =====
-- The two ends of the pipe that restores a volume.
use zfs_localpv.Prelude.{append_assoc}
use zfs_localpv.Zfs.Args.Options.{read-opt, read-thick_opts, read-o, read_path, set_values-three}

ruleset reading = (append_assoc, read-opt, read-thick_opts, read-o, read_path, set_values-three)
