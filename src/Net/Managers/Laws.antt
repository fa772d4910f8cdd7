-- ===== src/Net/Managers/Laws.antt =====
-- What a net manager leaves behind when it is closed.
use rsock.Wire.TcpInfo.{TcpInfo}
