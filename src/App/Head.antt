-- ===== src/App/Head.antt =====
-- `mHead` of conn/IAppGroup.cpp, the head that a group writes before what it sends. A packet is the
-- head as it is at the call of `Send`, with the payload.
use rsock.Base.{ℕ, List, le_bytes}
use rsock.Wire.EncHead.{EncHead, type_data, type_conv_rst}

abbrev pub Packet : Type 0
Packet = EncHead × List ℕ

-- `SetConv` and `Send`.
abbrev pub send_conv : EncHead → ℕ → List ℕ → EncHead × Packet
send_conv head conv base = let h = record head { conv = conv } in (h, (h, base))

-- `doSendCmd`: the head as it is left, and the packet.
unfoldable pub do_send_cmd : EncHead → ℕ → List ℕ → EncHead × Packet
do_send_cmd head cmd base =
    let h = record head { cmd = cmd } in (record h { cmd = type_data }, (h, base))

-- `ConnReset::SendConvRst`
unfoldable pub send_conv_rst : EncHead → ℕ → EncHead × Packet
send_conv_rst head conv = do_send_cmd head type_conv_rst (le_bytes 4 conv)
