-- ===== src/Wire/TcpInfo/Order.antt =====
-- TcpCmpFn is a strict order on the four addresses, as `std::map` wants it.
use rsock.Base.{◌≡◌, ◌↔◌, true, false, arith}
use rsock.Wire.TcpInfo.{TcpInfo, less, equals}

pub less_irrefl : (i : TcpInfo) → less i i ≡ false
unfolding less
less_irrefl i = ground arith

-- What comes before an info comes before all that come after it.
pub less_trans : (i j k : TcpInfo) → less i j ≡ true → less j k ≡ true → less i k ≡ true
unfolding less
less_trans i j k p q = ground arith

-- Neither of two infos comes before the other exactly when `Equals` holds of them.
pub less-equals : (i j : TcpInfo) → ((less i j ≡ false) × (less j i ≡ false)) ↔ (equals i j ≡ true)
unfolding less equals
less-equals i j = ((λ h. ground arith), (λ h. ground arith))
