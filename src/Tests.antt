-- ===== src/Tests.antt =====
-- Runs of the model on small inputs, and each theorem at an input that meets its conditions.
mod Schedule
mod Locks
mod Volumes
mod Named
mod Pools
mod Nodes
mod Mounts
mod Available
mod Gc
mod Cluster
mod Requests
mod Commands
mod Node
mod Settle
mod Resize
mod Capacity
mod Backup
mod Snap
