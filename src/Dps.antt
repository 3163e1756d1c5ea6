-- ===== src/Dps.antt =====
-- src/pypopur/dps.py: the codecs of the packed data points, a module for each.
pub mod Payload
pub mod System
pub mod Report
pub mod Scalars
pub mod Notifications
pub mod Snapshot
pub mod Schedule
pub mod Dustbin
pub mod Keys
pub mod Mutators
