-- ===== src/Net/Dial.antt =====
-- client/ClientNetManager.cpp: the TCP connections that are being dialed. A `uv_connect_t` is its
-- address, 0 for null. What libuv and the pool of captures make of a call is an argument.
pub mod Laws
use rsock.Base.{
  ℕ, ◌+◌, ◌-◌, ◌*◌, Bool, true, false, not, ◌&&◌, List, [], ◌∷◌, ltb, leb, ◌==◌, if◌then◌else◌,
  ◌++◌,
}
use rsock.Wire.ConnInfo.{ConnInfo}

-- `nRetry` is an `int`; the calls below do not count it down from 0.
pub record DialHelper : Type 0 where
  pub info : ConnInfo
  pub n_retry : ℕ
  pub next_retry_ms : ℕ
  pub duration_ms : ℕ
  pub req : ℕ

-- INT_MAX
abbrev pub max_retry : ℕ
max_retry = 2147483647

pub dial_failed : DialHelper → ℕ → DialHelper
dial_failed h now =
    let doubled = h.duration_ms * 2 in
    let duration = if ltb 60000 doubled then 1000 else doubled in
    record h { n_retry = h.n_retry - 1; duration_ms = duration; next_retry_ms = now + duration }

abbrev pub dial_tcp_async : List DialHelper → ConnInfo → ℕ → List DialHelper
dial_tcp_async pending info now =
    pending
    ++ record {
      info = info;
      n_retry = max_retry;
      next_retry_ms = now + 1000;
      duration_ms = 1000;
      req = 0;
    }
      ∷ []

-- A round for one dial that is not given up; `connect_tcp` returns the request, 0 for a failure.
unfoldable pub flush_one : (ConnInfo → ℕ) → ℕ → DialHelper → DialHelper
flush_one connect_tcp now h =
    if (h.req == 0) && leb h.next_retry_ms now
    then if connect_tcp h.info == 0
      then dial_failed h now
      else record h { req = connect_tcp h.info }
    else h

-- What is pending afterwards, and the infos whose callback is told of the failure.
unfoldable pub flush_pending :
    (ConnInfo → ℕ) → Bool → ℕ → List DialHelper → List DialHelper × List ConnInfo
flush_pending connect_tcp network_alive now [] = ([], [])
flush_pending connect_tcp network_alive now (h ∷ pending) =
    let (left, failed) = flush_pending connect_tcp network_alive now pending in
    if not network_alive
    then (h ∷ pending, [])
    else if h.n_retry == 0
    then (left, h.info ∷ failed)
    else (flush_one connect_tcp now h ∷ left, failed)

-- `status` is 0 for a connection, and `created` is whether `createINetConn` and `GetTcpInfo` gave
-- one with an address. The dial of this request is tried again or, if all went well, removed.
abbrev pub on_tcp_connect : ℕ → ℕ → Bool → ℕ → List DialHelper → List DialHelper
on_tcp_connect req status created now [] = []
on_tcp_connect req status created now (h ∷ pending) =
    let rest = on_tcp_connect req status created now pending in
    if h.req == req
    then if (status == 0) && created
      then pending
      else dial_failed (record h { req = 0 }) now ∷ pending
    else h ∷ rest
