-- ===== src/Builder.antt =====
-- pkg/builder: the builders of the volume and snapshot objects, which collect their errors. The
-- namespace is left out, since every object of the driver has the same one.
pub mod Volume
pub mod Snapshot
pub mod Valid
