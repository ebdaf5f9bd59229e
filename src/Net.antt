-- ===== src/Net.antt =====
-- The network layer, mysdk/net.
pub mod Buffer
pub mod Connector
pub mod TcpConnection
pub mod TimerQueue
