-- ===== src/App/Input/Laws.antt =====
-- What becomes of data for a connection that is gone.
use rsock.Base.{ℕ, List}
use rsock.Wire.EncHead.{EncHead, type_netconn_rst}
use rsock.Wire.KeyGenerator.{encode_key}
use rsock.Conn.NetGroup.{NetGroup}

-- The packet that resets the connection of a key, as a group with this head sends it.
abbrev pub reset_packet : EncHead → ℕ → EncHead × List ℕ
reset_packet head key = (record head { cmd = type_netconn_rst }, encode_key key)
