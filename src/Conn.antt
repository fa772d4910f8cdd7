-- ===== src/Conn.antt =====
-- The connections and their groups (conn/ and callbacks/): what a group of network connections
-- keeps, how it sends over one of them, and how it finds out that one is dead.
pub mod Stat
pub mod NetGroup
pub mod KeepAlive
pub mod FakeTcp
