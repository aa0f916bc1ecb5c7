-- ===== src/Net.antt =====
-- The framework's networking code, common/cpp/net.
pub mod Bytes
pub mod Buffer
pub mod Packet
pub mod Ring
pub mod TcpReader
pub mod TcpWriter
pub mod TcpPacket
pub mod WsFrame
pub mod Coalescer
mod Tests
