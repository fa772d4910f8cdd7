-- ===== src/Tests/Wire.antt =====
-- The codecs and keys (util/enc.c, bean/, src/util/) on concrete values.
use rsock.Base.{refl, [], ◌∷◌, arith}
use rsock.Wire.ConnInfo.{ConnInfo}
use rsock.Wire.TcpInfo.{TcpInfo}
use rsock.Wire.TcpInfo.Laws.{Fits}
use rsock.Wire.EncHead.{EncHead, IsValid}

abbrev web : TcpInfo
web = record {
  conn = record { src = 10; dst = 20; sp = 5000; dp = 80 };
  seq = 7;
  ack = 8;
  flag = 16;
}

-- Its peer's port is 4096 higher.
abbrev proxy : TcpInfo
proxy = record {
  conn = record { src = 10; dst = 20; sp = 5000; dp = 4176 };
  seq = 0;
  ack = 0;
  flag = 16;
}

abbrev dns : ConnInfo
dns = record { src = 10; dst = 20; sp = 5000; dp = 53 }

web-Fits : Fits web
web-Fits = record {
  conn_fits = record {
    src_fits = omega arith;
    dst_fits = omega arith;
    sp_fits = omega arith;
    dp_fits = omega arith;
  };
  seq_fits = omega arith;
  ack_fits = omega arith;
  flag_fits = omega arith;
}

abbrev head : EncHead
head = record {
  len = 0;
  cmd = 3;
  id_buf = 1 ∷ 2 ∷ 3 ∷ 4 ∷ 5 ∷ 6 ∷ 7 ∷ 8 ∷ [];
  conv = 99;
  conn_key = 1234567;
  reserved = 0;
}

head-IsValid : IsValid head
head-IsValid = record {
  cmd_fits = omega arith;
  id_fits = refl;
  conv_fits = omega arith;
  key_fits = omega arith;
  reserved_fits = omega arith;
}
