-- ===== src/Network/TcpServer.antt =====
-- network/tcp_net.go: the TCP server.
pub mod State
pub mod Server
pub mod Accept
pub mod Early
pub mod Broadcast
pub mod Instance
