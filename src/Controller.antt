-- ===== src/Controller.antt =====
-- pkg/driver/controller.go: the CSI controller.
pub mod Capacity
pub mod Server
pub mod Cases
pub mod Delete
pub mod Snapshots
pub mod Choice
pub mod Provision
pub mod Request
pub mod Nodes
pub mod Create
pub mod Expand
pub mod Available
