-- ===== src/Os/Table.antt =====
-- A small operating system that keeps every law: a table of descriptors of which the lowest free one
-- is handed out, and the clients that will connect.
use net_utils.Base.{
  ℕ, zero, suc, ◌≡◌, ◌≢◌, refl, ap, Bool, true, false, List, [], ◌∷◌, Option, none, some, ℤ, pos,
  negsuc, ◌==◌, if◌then◌else◌,
}
use net_utils.Os.{Text, Accepted, Os, Opens, OsLaws}

-- Element n of `fds` says whether n is open; further descriptors are free.
pub record Table : Type 0 where
  pub fds : List Bool
  pub bind_ok : Bool  -- does `bind` succeed?
  pub clients : List (ℕ × ℕ)

abbrev pub is_set : List Bool → ℕ → Bool
is_set [] n = false
is_set (b ∷ fds) zero = b
is_set (b ∷ fds) (suc n) = is_set fds n

abbrev first_free : List Bool → ℕ
first_free [] = 0
first_free (false ∷ fds) = 0
first_free (true ∷ fds) = suc (first_free fds)

abbrev fill : List Bool → List Bool
fill [] = true ∷ []
fill (false ∷ fds) = true ∷ fds
fill (true ∷ fds) = true ∷ fill fds

abbrev clear : ℕ → List Bool → List Bool
clear n [] = []
clear zero (b ∷ fds) = false ∷ fds
clear (suc n) (b ∷ fds) = b ∷ clear n fds

is_set-first_free : (fds : List Bool) → is_set fds (first_free fds) ≡ false
is_set-first_free [] = refl
is_set-first_free (false ∷ fds) = refl
is_set-first_free (true ∷ fds) = is_set-first_free fds

is_set-fill_self : (fds : List Bool) → is_set (fill fds) (first_free fds) ≡ true
is_set-fill_self [] = refl
is_set-fill_self (false ∷ fds) = refl
is_set-fill_self (true ∷ fds) = is_set-fill_self fds

is_set-fill_ne : (fds : List Bool) (m : ℕ) → m ≢ first_free fds → is_set (fill fds) m ≡ is_set fds m
is_set-fill_ne [] zero h = absurd (h refl)
is_set-fill_ne [] (suc m) h = refl
is_set-fill_ne (false ∷ fds) zero h = absurd (h refl)
is_set-fill_ne (false ∷ fds) (suc m) h = refl
is_set-fill_ne (true ∷ fds) zero h = refl
is_set-fill_ne (true ∷ fds) (suc m) h = is_set-fill_ne fds m (λ e. h (ap suc e))

is_set-clear_self : (n : ℕ) (fds : List Bool) → is_set (clear n fds) n ≡ false
is_set-clear_self n [] = refl
is_set-clear_self zero (b ∷ fds) = refl
is_set-clear_self (suc n) (b ∷ fds) = is_set-clear_self n fds

is_set-clear_ne : (n : ℕ) (fds : List Bool) (m : ℕ) → m ≢ n → is_set (clear n fds) m ≡ is_set fds m
is_set-clear_ne n [] m h = refl
is_set-clear_ne zero (b ∷ fds) zero h = absurd (h refl)
is_set-clear_ne zero (b ∷ fds) (suc m) h = refl
is_set-clear_ne (suc n) (b ∷ fds) zero h = refl
is_set-clear_ne (suc n) (b ∷ fds) (suc m) h = is_set-clear_ne n fds m (λ e. h (ap suc e))

abbrev no_client : Table → Accepted × Table
no_client t = (record { fd = negsuc 0; addr = 0; port = 0 }, t)

abbrev take_client : Table → List (ℕ × ℕ) → Accepted × Table
take_client t [] = no_client t
take_client t ((a, p) ∷ more) = (
  record { fd = pos (first_free t.fds); addr = a; port = p },
  record t { fds = fill t.fds; clients = more },
)

abbrev table_accept : ℤ → Table → Accepted × Table
table_accept (negsuc k) t = no_client t
table_accept (pos n) t = if is_set t.fds n then take_client t t.clients else no_client t

abbrev table_close : ℤ → Table → Table
table_close (negsuc k) t = t
table_close (pos n) t = record t { fds = clear n t.fds }

-- "::1" is the one address that `inet_pton` knows.
abbrev localhost6 : Text
localhost6 = b':' ∷ b':' ∷ b'1' ∷ []

abbrev table_pton : Text → Option ℕ
table_pton [] = none
table_pton (c ∷ text) = if c == b':' then some 1 else none

abbrev pub table_os : Os Table
table_os = record {
  is_open = λ t n. is_set t.fds n;
  socket = λ f t. (pos (first_free t.fds), record t { fds = fill t.fds });
  setsockopt = λ fd o t. (pos 0, t);
  bind = λ fd a t. (if t.bind_ok then pos 0 else negsuc 0, t);
  listen = λ fd n t. (pos 0, t);
  accept = table_accept;
  close = table_close;
  inet_addr = λ text. 0x7f00_0001;
  inet_pton = table_pton;
  inet_ntoa = λ a. [];
  inet_ntop = λ a. localhost6;
  htons = λ p. p;
  ntohs = λ p. p;
}

take_client-Opens :
    (t : Table) (clients : List (ℕ × ℕ))
    → Opens table_os t (take_client t clients).0.fd (take_client t clients).1
take_client-Opens t [] = λ m. refl
take_client-Opens t ((a, p) ∷ more) =
    (is_set-first_free t.fds, is_set-fill_self t.fds, is_set-fill_ne t.fds)

table_accept-Opens :
    (fd : ℤ) (t : Table) → Opens table_os t (table_accept fd t).0.fd (table_accept fd t).1
table_accept-Opens (negsuc k) t = λ m. refl
table_accept-Opens (pos n) t = by_case (is_set t.fds n)
  where
    by_case :
        (b : Bool)
        → Opens table_os t
            (if b then take_client t t.clients else no_client t).0.fd
            (if b then take_client t t.clients else no_client t).1
    by_case true = take_client-Opens t t.clients
    by_case false = λ m. refl

pub table_laws : OsLaws table_os
table_laws = record {
  socket_opens = λ f t. (is_set-first_free t.fds, is_set-fill_self t.fds, is_set-fill_ne t.fds);
  setsockopt_keeps = λ fd o t m. refl;
  bind_keeps = λ fd a t m. refl;
  listen_keeps = λ fd n t m. refl;
  close_shuts = λ n t. is_set-clear_self n t.fds;
  close_keeps = λ n t m h. is_set-clear_ne n t.fds m h;
  close_negative = λ k t m. refl;
  accept_shut = λ n t h. rw h;
  accept_negative = λ k t. refl;
  accept_opens = table_accept-Opens;
}
