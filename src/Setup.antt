-- ===== src/Setup.antt =====
-- The set-up of the programs: the parts of an application (src/ISockApp.cpp), the services
-- (src/singletons/), the ports that a server listens on (net/TcpListenPool.cpp) and the capture
-- thread (cap/RCap.cpp).
pub mod SockApp
pub mod ListenPool
pub mod Capture
pub mod Devices
pub mod Bridge
pub mod Services
