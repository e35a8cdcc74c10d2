-- ===== src/Websocket/Frame/Resume.antt =====
-- A frame that comes in several packets.
pub mod Body
pub mod Header
pub mod Split
pub mod Packets
pub mod Twice
pub mod Ambiguous
