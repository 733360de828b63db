-- ===== src/Zfs.antt =====
-- pkg/zfs: the commands that the node agent runs.
pub mod Args
pub mod Pools
pub mod Host
pub mod Volumes
pub mod UserProperty
pub mod Resize
pub mod Backup
pub mod Restore
pub mod Refused
pub mod Mount
