-- ===== src/Sdk.antt =====
-- src/pypopur/sdk: the ports of the vendor's message and clock classes.
pub mod Dedup
pub mod Timestamp
pub mod Java
pub mod HexUtil
pub mod Crypto
pub mod MqttFraming
pub mod WakeManager
pub mod LanSocket
pub mod LanFraming
pub mod FastJson
