-- ===== src/Conn/FakeTcp.antt =====
-- conn/FakeTcp.cpp and src/util/TcpUtil.cpp: the numbers that a TCP connection writes into its
-- segments, kept in `mInfo`. They are `uint32_t`.
pub mod Laws
use rsock.Base.{ℕ, ◌+◌, ◌%◌, ◌^◌, Bool, ◌&&◌, List, [], ◌∷◌, ltb, if◌then◌else◌, length}
use rsock.Wire.TcpInfo.{TcpInfo}
use rsock.Wire.EncHead.{get_min_enc_size}
use rsock.Packet.Hash.{hash_buf_size}

-- `RConn::HEAD_SIZE`
abbrev pub head_size : ℕ
head_size = get_min_enc_size + hash_buf_size

-- `TcpInfo::UpdateSeq` and `UpdateAck`.
abbrev pub update_seq : TcpInfo → ℕ → TcpInfo
update_seq i seq = record i { seq = seq % 2 ^ 32 }

abbrev pub update_ack : TcpInfo → ℕ → TcpInfo
update_ack i ack = record i { ack = ack % 2 ^ 32 }

-- `TcpUtil::SetISN` and `SetAckISN` on a connection whose `mInfo` is the first argument; the
-- second is what `info` refers to.
pub set_isn : TcpInfo → TcpInfo → TcpInfo
set_isn own info = update_seq own (info.ack + 1)

pub set_ack_isn : TcpInfo → TcpInfo → TcpInfo
set_ack_isn own info = update_ack own (info.seq + 1)

-- The two calls of `Init`, both with `mInfo` by reference.
pub init : TcpInfo → TcpInfo
init own = let own' = set_isn own own in set_ack_isn own' own'

-- `ok` is whether `INetConn::Output` returns no error; the segment bears the number from before.
pub output : TcpInfo → ℕ → Bool → TcpInfo
output own nread ok = if ok then update_seq own (nread + own.seq + head_size) else own

-- `seq` is that of the packet's info, and `ok` is as above.
pub on_recv : TcpInfo → ℕ → Bool → TcpInfo
on_recv own seq ok = if ok && ltb own.ack seq then update_ack own seq else own
