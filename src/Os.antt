-- ===== src/Os.antt =====
-- The operating system as the servers use it: the socket calls, which are no code of the
-- repository and so are a parameter, and what their documentation promises of descriptors.
pub mod Table
use net_utils.Base.{ℕ, ◌≡◌, ◌≢◌, ◌⊎◌, Bool, true, false, List, Option, ℤ, pos, negsuc, is_neg}

abbrev pub Text : Type 0
Text = List ℕ

pub data Family : Type 0 where
  af_inet af_inet6 : Family

-- The options that the servers set; the value is always 1.
pub data SockOpt : Type 0 where
  so_reuseaddr ipv6_v6only so_rcvtimeo so_sndtimeo : SockOpt

-- `sockaddr_in` and `sockaddr_in6`: address and port, the port in network order.
pub data SockAddr : Type 0 where
  in4 : ℕ → ℕ → SockAddr
  in6 : ℕ → ℕ → SockAddr

-- What `accept` returns and fills in.
pub record Accepted : Type 0 where
  pub fd : ℤ
  pub addr : ℕ
  pub port : ℕ  -- in network order

pub record Os (World : Type 0) : Type 0 where
  -- Is the number an open descriptor of the process?
  pub is_open : World → ℕ → Bool
  pub socket : Family → World → ℤ × World
  pub setsockopt : ℤ → SockOpt → World → ℤ × World
  pub bind : ℤ → SockAddr → World → ℤ × World
  pub listen : ℤ → ℕ → World → ℤ × World
  pub accept : ℤ → World → Accepted × World
  pub close : ℤ → World → World
  pub inet_addr : Text → ℕ
  -- `inet_pton(AF_INET6, …)`: the address if it returned 1.
  pub inet_pton : Text → Option ℕ
  -- `inet_ntoa`, and `inet_ntop` for IPv6.
  pub inet_ntoa : ℕ → Text
  pub inet_ntop : ℕ → Text
  pub htons : ℕ → ℕ
  pub ntohs : ℕ → ℕ

-- A call returned a descriptor that was not open before and is now, or it failed; no other
-- descriptor changed.
abbrev pub Opens : {World : Type 0} → Os World → World → ℤ → World → Type 0
Opens os w (pos n) w' =
    (os.is_open w n ≡ false)
    × (os.is_open w' n ≡ true)
    × ((m : ℕ) → m ≢ n → os.is_open w' m ≡ os.is_open w m)
Opens os w (negsuc k) w' = (m : ℕ) → os.is_open w' m ≡ os.is_open w m

pub record OsLaws {World : Type 0} (os : Os World) : Type 0 where
  pub socket_opens : (f : Family) (w : World) → Opens os w (os.socket f w).0 (os.socket f w).1
  pub setsockopt_keeps :
      (fd : ℤ) (o : SockOpt) (w : World) (m : ℕ)
      → os.is_open (os.setsockopt fd o w).1 m ≡ os.is_open w m
  pub bind_keeps :
      (fd : ℤ) (a : SockAddr) (w : World) (m : ℕ) → os.is_open (os.bind fd a w).1 m ≡ os.is_open w m
  pub listen_keeps :
      (fd : ℤ) (n : ℕ) (w : World) (m : ℕ) → os.is_open (os.listen fd n w).1 m ≡ os.is_open w m
  pub close_shuts : (n : ℕ) (w : World) → os.is_open (os.close (pos n) w) n ≡ false
  pub close_keeps :
      (n : ℕ) (w : World) (m : ℕ) → m ≢ n → os.is_open (os.close (pos n) w) m ≡ os.is_open w m
  -- EBADF
  pub close_negative :
      (k : ℕ) (w : World) (m : ℕ) → os.is_open (os.close (negsuc k) w) m ≡ os.is_open w m
  pub accept_shut :
      (n : ℕ) (w : World) → os.is_open w n ≡ false → is_neg (os.accept (pos n) w).0.fd ≡ true
  pub accept_negative : (k : ℕ) (w : World) → is_neg (os.accept (negsuc k) w).0.fd ≡ true
  pub accept_opens : (fd : ℤ) (w : World) → Opens os w (os.accept fd w).0.fd (os.accept fd w).1

-- A call that failed opened and closed nothing.
pub Opens-failed :
    {World : Type 0} (os : Os World) {w : World} (r : ℤ) {w' : World}
    → is_neg r ≡ true
    → Opens os w r w'
    → (m : ℕ) → os.is_open w' m ≡ os.is_open w m
Opens-failed os (pos n) neg opens = cc
Opens-failed os (negsuc k) neg opens = opens
