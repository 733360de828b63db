-- ===== src/Mgmt.antt =====
-- pkg/mgmt: the controllers of the node agent, which bring the node to the state that the objects
-- of the API server ask for. A reconcile is given the object that the lister holds.
pub mod Server
pub mod Volumes
pub mod Settled
pub mod Backups
pub mod Snapshots
pub mod Snapped
pub mod Nodes
