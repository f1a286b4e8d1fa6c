-- ===== src/System/Descriptors.antt =====
-- Lists of descriptors, and what `close` of all of them leaves open.
use net_utils.Base.{
  ℕ, ◌≡◌, refl, ap, ◌∙◌, Bool, false, ◌||◌, if◌then◌else◌, List, [], ◌∷◌, ℤ, pos, negsuc, is_neg,
  arith,
}
use net_utils.Os.{Accepted, Os, OsLaws, Opens}
use net_utils.Worker.Closing.{is_fd}

-- Is a descriptor in the list?
abbrev pub named : ℕ → List ℤ → Bool
named m [] = false
named m (fd ∷ fds) = is_fd m fd || named m fds

abbrev pub fd_of : Accepted → ℤ
fd_of a = a.fd

module _ {World : Type 0} (os : Os World) where
  abbrev pub close_all : List ℤ → World → World
  close_all [] w = w
  close_all (fd ∷ fds) w = close_all fds (os.close fd w)

  module _ (laws : OsLaws os) where
    pub close-is_open :
        (fd : ℤ) (w : World) (m : ℕ)
        → os.is_open (os.close fd w) m ≡ (if is_fd m fd then false else os.is_open w m)
    close-is_open (negsuc k) w m = laws.close_negative k w m
    close-is_open (pos n) w m = ground (arith, laws.close_shuts n w, laws.close_keeps n w m)

    pub close_all-is_open :
        (fds : List ℤ) (w : World) (m : ℕ)
        → os.is_open (close_all fds w) m ≡ (if named m fds then false else os.is_open w m)
    close_all-is_open [] w m = refl
    close_all-is_open (fd ∷ fds) w m =
        ground (arith, close_all-is_open fds (os.close fd w) m, close-is_open fd w m)

    pub opened :
        (fd : ℤ) (w w' : World) (m : ℕ)
        → is_neg fd ≡ false
        → Opens os w fd w'
        → (if is_fd m fd then false else os.is_open w' m) ≡ os.is_open w m
    opened (pos n) w w' m ok (before, now, keeps) = ground (arith, keeps m)
    opened (negsuc k) w w' m ok opens = absurd (ground arith)

    -- A server that opened n, and clients after it, all of which are closed again.
    pub closed_again :
        (n : ℕ) (fds clients : List ℤ) (w w1 w2 : World) (m : ℕ)
        → Opens os w (pos n) w1
        → named m fds ≡ named m clients
        → (if named m clients then false else os.is_open w2 m) ≡ os.is_open w1 m
        → os.is_open (os.close (pos n) (close_all fds w2)) m ≡ os.is_open w m
    closed_again n fds clients w w1 w2 m opens same rest =
        close-is_open (pos n) (close_all fds w2) m
        ∙ ap (λ b. if is_fd m (pos n) then false else b)
            (close_all-is_open fds w2 m
              ∙ ap (λ b. if b then false else os.is_open w2 m) same
              ∙ rest)
        ∙ opened (pos n) w w1 m refl opens
