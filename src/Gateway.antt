-- ===== src/Gateway.antt =====
-- The gateway's own state, services/gateway-cpp/main.cpp.
pub mod Players
pub mod Rooms
pub mod Sessions
pub mod Responses
pub mod Routing
mod Tests
