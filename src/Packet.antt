-- ===== src/Packet.antt =====
-- What a packet looks like on the wire: the hash in front of it (util/rhash.cpp) and the
-- connection that adds and checks it (conn/RConn.cpp, callbacks/RConnReset.cpp).
pub mod Hash
pub mod RConn
pub mod RawTcp
pub mod RawSend
pub mod Udp
