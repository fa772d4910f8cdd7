-- ===== src/App/Session.antt =====
-- Questions of a local address and the answer, through both groups.
use rsock.Wire.EncHead.{EncHead}
use rsock.App.Server
