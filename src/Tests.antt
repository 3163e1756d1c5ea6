-- ===== src/Tests.antt =====
-- Runs of the theorems on concrete inputs.
pub mod Maps
pub mod Payloads
pub mod Channels
pub mod Lan
pub mod Link
pub mod Mqtt
pub mod Wake
