-- ===== src/Network/ConnPool.antt =====
-- network/conn_pool.go: the pool of connections, over the interface IConnection.
pub mod Pool
pub mod Bounds
pub mod Cleanup
pub mod Removal
