-- ===== src/Wire.antt =====
-- What goes over a socket: byte order (util/enc.c), the head of a packet (bean/EncHead.cpp), the
-- addresses of a packet (bean/ConnInfo.cpp, bean/TcpInfo.cpp), and the keys made from them
-- (src/util/KeyGenerator.cpp).
pub mod Enc
pub mod EncHead
pub mod ConnInfo
pub mod TcpInfo
pub mod KeyGenerator
