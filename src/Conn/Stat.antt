-- ===== src/Conn/Stat.antt =====
-- `IConn::DataStat` of conn/IConn.cpp: counts of what goes in and out, and whether a connection was
-- used between two flushes. The counters are `uint32_t`.
use rsock.Base.{ℕ, ◌+◌, ◌%◌, ◌^◌, Bool, not, ◌&&◌, ◌==◌, if◌then◌else◌}

pub record DataStat : Type 0 where
  pub prev_in : ℕ
  pub curr_in : ℕ
  pub prev_out : ℕ
  pub curr_out : ℕ
  pub alive : Bool

abbrev pub flush : DataStat → DataStat
flush s = record {
  alive = not (s.prev_in == s.curr_in) && not (s.prev_out == s.curr_out);
  prev_in = s.curr_in;
  curr_in = s.curr_in;
  prev_out = s.curr_out;
  curr_out = s.curr_out;
}

-- `n` is the number of bytes that the call returns, 0 also for an error.
abbrev pub after_send : DataStat → ℕ → DataStat
after_send s n = if n == 0 then s else record s { curr_out = (s.curr_out + 1) % 2 ^ 32 }

abbrev after_input : DataStat → ℕ → DataStat
after_input s n = if n == 0 then s else record s { curr_in = (s.curr_in + 1) % 2 ^ 32 }
