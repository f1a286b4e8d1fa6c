-- ===== src/Io/Run.antt =====
-- How a call that waits for the peer stands, and the errno values that mean "try again".
use mathlib.Core.Bool.{Bool, ◌||◌}
use net_utils.Base.{ℕ, ◌==◌}

-- `waiting`: every answer of the peer is used up, and the code stands in the next system call.
pub data Run {ℓ} (A : Type ℓ) : Type ℓ where
  returned : Bool → A → Run A
  waiting : A → Run A

abbrev pub eagain : ℕ
eagain = 11

-- On Linux the two names are one number.
abbrev pub ewouldblock : ℕ
ewouldblock = 11

-- `errno == EAGAIN || errno == EWOULDBLOCK`
abbrev pub try_again : ℕ → Bool
try_again errno = errno == eagain || errno == ewouldblock
