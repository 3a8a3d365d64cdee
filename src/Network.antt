-- ===== src/Network.antt =====
-- The Go package network.
pub mod Errors
pub mod Packet
pub mod RateLimiter
pub mod Heartbeat
pub mod Connection
pub mod ConnPool
pub mod TcpServer
pub mod Tests
