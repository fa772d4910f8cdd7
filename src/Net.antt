-- ===== src/Net.antt =====
-- The net managers (client/ClientNetManager.cpp and server/ServerNetManager.cpp) and the pool of
-- captured TCP handshakes that they take sequence numbers from (net/TcpAckPool.cpp).
pub mod AckPool
pub mod ConnPool
pub mod Dial
pub mod Redial
pub mod Create
pub mod Managers
