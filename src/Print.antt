-- ===== src/Print.antt =====
-- How `std::ostringstream` prints the numbers in the texts of src/NetUtils/SocketContext.h and
-- src/NetUtils/services/tcp/ITcpBrokerServerEngine.cpp.
pub mod Reader
pub mod Laws
mod Tests
use net_utils.Base.{
  ℕ, zero, suc, ◌+◌, ◌/◌, ◌%◌, List, [], ◌∷◌, ◌++◌, ltb, if◌then◌else◌, ℤ, pos, negsuc,
}

-- The digits of a number below the fuel, the first one first.
pub digits : ℕ → ℕ → List ℕ
digits zero n = []
digits (suc fuel) n =
    let before = digits fuel (n / 10) in (if ltb n 10 then [] else before) ++ (b'0' + n % 10) ∷ []

-- `oss << n`
unfoldable pub print : ℕ → List ℕ
unfolding digits
print n = digits (suc n) n

unfoldable pub print_int : ℤ → List ℕ
unfolding print
print_int (pos n) = print n
print_int (negsuc n) = b'-' ∷ print (n + 1)
