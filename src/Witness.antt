-- ===== src/Witness.antt =====
-- Runs of the driver against a cloud with one disk, which show that the theorems' hypotheses hold.
pub mod Cloud
pub mod Basics
pub mod Disks
pub mod Setup
pub mod Attach
pub mod Host
pub mod Node
pub mod Start
pub mod Servers
pub mod Create
pub mod Snapshots
pub mod Names
pub mod Serving
pub mod Recycle
