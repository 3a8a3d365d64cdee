-- ===== src/Metrics.antt =====
-- metrics/: the collectors of each component, and the singletons that hold them.
pub mod Collectors
pub mod Conn
pub mod Heartbeat
pub mod ConnPool
pub mod TcpServer
pub mod RateLimiter
pub mod Owners
pub mod Singletons
pub mod Once
pub mod Registration
pub mod Tests
