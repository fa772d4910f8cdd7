-- ===== src/Lib.antt =====
-- rsock hides a stream of packets in UDP and faked TCP between a client and a server. This library
-- models the parts of it that compute, and proves what they promise each other.
--
-- How the parts interact: an application's packet gets a head (bean/EncHead) and a hash
-- (util/rhash.cpp) and leaves through the lowest connection (conn/RConn.cpp), over one of the
-- network connections of a group (conn/INetGroup.cpp), which are named by keys
-- (src/util/KeyGenerator.cpp). A TCP connection is dialed or accepted by a net manager
-- (client/ClientNetManager.cpp, server/ServerNetManager.cpp), which takes the sequence numbers of its
-- handshake from the pool of captured ones (net/TcpAckPool.cpp). The keep-alive
-- (callbacks/NetConnKeepAlive.cpp) finds dead connections, which the client dials again
-- (client/CConnErrHandler.cpp); calls are put off with a handler (util/Handler.cpp). The threads of
-- the program hand packets to each other, on Windows over a TCP stream of the machine to itself
-- (src/sync/TcpStreamSyncConn.cpp). On the client a group of applications
-- (client/ClientGroup.cpp) numbers the conversations of the local sources; the server keeps one
-- group for each client (server/ServerGroup.cpp), whose conversations (server/SubGroup.cpp) send to
-- the target. A side that gets a packet of an unknown conversation asks the other one to reset it
-- (callbacks/ConnReset.cpp). Over TCP the packets are segments made up by conn/FakeTcp.cpp, which
-- conn/RawTcp.cpp takes from captured frames; cap/RCap.cpp captures them in a thread of its own, by a
-- filter of cap/cap_util.cpp. Over UDP they go through conn/BtmUdpConn.cpp. An application
-- (src/ISockApp.cpp, client/CSockApp.cpp) makes all these parts from a configuration
-- (bean/RConfig.cpp) and closes them.
--
-- The files, with what they model:
--   Base: shared names, tests, lists, bytes, bits and maps as association lists.
--   Wire/Enc: util/enc.c. Wire/EncHead, Wire/ConnInfo, Wire/TcpInfo: bean/EncHead.cpp,
--     bean/ConnInfo.cpp, bean/TcpInfo.cpp and src/util/TcpCmpFn.h. Wire/KeyGenerator:
--     src/util/KeyGenerator.cpp.
--   Sync/Stream: src/sync/TcpStreamSyncConn.cpp. Sync/BufSize: src/sync/ISyncConn.cpp.
--   Packet/Hash, Packet/RConn: util/rhash.cpp, conn/RConn.cpp and callbacks/RConnReset.cpp.
--   Runtime/Expiry, Runtime/Handler: util/Handler.cpp. Runtime/Service, Runtime/Timers, Runtime/Route:
--     src/service/IService.cpp, src/service/TimerService.cpp and src/service/RouteService.cpp with
--     src/util/RouteUtil.cpp.
--   Net/AckPool, Net/ConnPool, Net/Dial: net/TcpAckPool.cpp, server/ServerNetManager.cpp and
--     client/ClientNetManager.cpp, with `DialTcpSync` in Net/Create and the opening and closing of
--     both in Net/Managers. Net/Redial: client/CConnErrHandler.cpp with the message of
--     conn/INetGroup.cpp that a connection failed.
--   Conn/Stat, Conn/NetGroup, Conn/KeepAlive: conn/IConn.cpp, conn/IGroup.cpp with
--     conn/INetGroup.cpp, and callbacks/NetConnKeepAlive.cpp.
--   Conn/NetGroup/Input: `INetGroup::Input`. Conn/FakeTcp: conn/FakeTcp.cpp and src/util/TcpUtil.cpp.
--   Packet/RawTcp, Packet/RawSend: conn/RawTcp.cpp, what it captures and what it sends. Packet/Udp:
--     conn/BtmUdpConn.cpp, with where net/NetUtil.cpp, src/ISockApp.cpp, client/CSockApp.cpp and
--     server/SSockApp.cpp make its connections.
--   App/Index, App/Head, App/ConvKey: what both sides share. App/Client: client/ClientGroup.cpp
--     and conn/CConn.cpp, with the flush of conn/IAppGroup.cpp and conn/IGroup.cpp in
--     App/Client/Flush. App/Server: server/SubGroup.cpp and server/SConn.cpp. App/ServerGroup:
--     server/ServerGroup.cpp. App/Reset: callbacks/ConnReset.cpp. App/Input:
--     conn/IAppGroup.cpp. App/Sides: client/CNetGroup.cpp, server/SNetGroup.cpp and
--     conn/FakeUdp.cpp. App/Session: a client and a server together.
--   Conf/PortList: util/RPortList.cpp and util/PortPair.cpp. Conf/RConfig: bean/RConfig.cpp, with its
--     JSON in Conf/RConfig/Json and what it takes from the flags in Conf/RConfig/Parse. Conf/Filter:
--     `BuildFilterStr` of cap/cap_util.cpp. Base/Decimal: numbers as decimal text.
--   Setup/SockApp: src/ISockApp.cpp with client/CSockApp.cpp, client/csock.cpp and server/ssock.cpp.
--     Setup/Capture: cap/RCap.cpp, with its two threads as steps on one state. Setup/ListenPool:
--     net/TcpListenPool.cpp. Setup/Devices: the searches of cap/cap_util.cpp and
--     src/singletons/RouteManager.cpp. Setup/Bridge: `CreateBridgeConn` of client/CSockApp.cpp.
--     Setup/Services: src/singletons/ServiceManager.cpp and src/singletons/Singleton.cpp.
--   Tests: runs on small inputs.
-- A method `fooBar` or `FooBar` of the source is the function `foo_bar`; it takes the object's fields
-- as a record and returns them as they are afterwards, with its result. A failed assertion, an
-- exception and a null pointer are values.
--
-- Bounds and fuel: integers keep their width where the code relies on it (`% 2 ^ 32` and the like),
-- and times stay below 2 ^ 63. The loop of the stream takes as fuel the length of what it reads,
-- which is enough, since each round takes at least the 4 bytes of a length. `doSend` takes a value
-- of `rand()` for each round. The search of the timers for a free time takes as many rounds as
-- there are entries, which is enough. The rounds of the handler's loops are counted by the lists.
-- The decimal text of `n` takes `n + 1` rounds and the loop of `FromString` as many as the text has
-- bytes; each is enough, since a round takes at least one digit. The loops over the buffer sizes halve
-- a size, which is fuel enough; the loop that turns "dst" into "src" takes as many rounds as the text
-- has bytes, which is enough, since each leaves one less.
--
-- Parameters: MD5, a function on bytes, whose digest has 16 of them; `GetTcpInfo`, the connects of
-- libuv and `uv_read_start`; `inet_pton`, `inet_addr`, `pcap_findalldevs` and `route_get`, and
-- `devWithIpv4` for the JSON; libnet, an interface with what its documentation says of it; what args
-- reads of the command line, and what each part of an application returns when it is initialised.
--
-- Not modelled: sockets, what libpcap and libnet do, the operating system's routes, logging, the
-- reading of the command line, the object that holds the configuration, what json11 reads and prints,
-- and the copies of other projects. Of conn/, client/ and server/: the `Init` and `Close` that only
-- set callbacks and free, the flush of the groups at the server, and `SendRawUdp`, which nothing
-- calls.
pub mod Base
pub mod Setup
pub mod Wire
pub mod Sync
pub mod Packet
pub mod Runtime
pub mod Net
pub mod Conn
pub mod Tests
pub mod App
pub mod Conf
