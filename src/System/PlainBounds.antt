-- ===== src/System/PlainBounds.antt =====
-- The descriptors that are open while the threads of a plain server run.
use net_utils.Base.{
  ℕ, zero, suc, ◌+◌, ◌≤◌, ◌≡◌, inl, inr, ap, ◌∙◌, List, [], ◌∷◌, ◌++◌, length, drop, drop_front,
  drop_whole, All, ℤ, arith,
}
use net_utils.Os.{Os, OsLaws}
use net_utils.Handle.{Handle, Turn, step}
use net_utils.Handle.Live.{is_live, Begun, step-Releases, step-Begun}
use net_utils.Worker.Closing.{is_fd}
use net_utils.System.Accounts.{one_if}
use net_utils.System.Descriptors.{close-is_open}
use net_utils.System.PlainThreads.{handle_step, nth_handle_step}

-- How many of the handles hold descriptor n and have not closed it.
abbrev pub lives : ℕ → List Handle → ℕ
lives n [] = 0
lives n (h ∷ hs) = one_if (is_live n h) + lives n hs

pub lives-append : (n : ℕ) (hs gs : List Handle) → lives n (hs ++ gs) ≡ lives n hs + lives n gs
lives-append n [] gs = omega arith
lives-append n (h ∷ hs) gs = omega (arith, lives-append n hs gs)

abbrev pub HasBegun : Handle → Type 0
HasBegun h = Begun h.main h

module _ {World : Type 0} (os : Os World) where
  -- No descriptor is open but for `others` and the handles.
  abbrev pub Bounded : (ℕ → ℕ) → List Handle → World → Type 0
  Bounded others hs w = (n : ℕ) → one_if (os.is_open w n) ≤ others n + lives n hs

  module _ (laws : OsLaws os) where
    closed-Bounded :
        (fd : ℤ) (w : World) (n k : ℕ)
        → one_if (os.is_open w n) ≤ k + one_if (is_fd n fd)
        → one_if (os.is_open (os.close fd w) n) ≤ k
    closed-Bounded fd w n k e = ground (arith, close-is_open os laws fd w n)

    is_live-fd : (n : ℕ) (h : Handle) → one_if (is_live n h) ≤ one_if (is_fd n h.client_fd)
    is_live-fd n h = ground arith

    handle_step-Bounded :
        (others : ℕ → ℕ) (t : Turn) (h : Handle) (w : World)
        → HasBegun h
        → ((n : ℕ) → one_if (os.is_open w n) ≤ others n + one_if (is_live n h))
        → (n : ℕ)
        → one_if (os.is_open (handle_step os t h w).1 n)
          ≤ others n + one_if (is_live n (handle_step os t h w).0)
    handle_step-Bounded others t h w begun bound n = elim (step-Releases t h begun) [
      | inl (closed, same) ↦
          let none_closed : drop (length h.closes) (step t h).closes ≡ [] =
            ap (drop (length h.closes)) closed ∙ drop_whole h.closes in
          rw (none_closed, same n) (bound n)
      | inr (closed, dead) ↦
          let one_closed : drop (length h.closes) (step t h).closes ≡ h.client_fd ∷ [] =
            ap (drop (length h.closes)) closed ∙ drop_front h.closes (h.client_fd ∷ []) in
          rw (one_closed, dead n)
            (let small =
                closed-Bounded h.client_fd w n (others n)
                  (omega (arith, bound n, is_live-fd n h)) in
              omega (arith, small))
    ]

    pub nth_handle_step-Bounded :
        (others : ℕ → ℕ) (i : ℕ) (t : Turn) (hs : List Handle) (w : World)
        → All HasBegun hs
        → Bounded others hs w
        → Bounded others (nth_handle_step os i t hs w).0 (nth_handle_step os i t hs w).1
    nth_handle_step-Bounded others i t [] w all bound = bound
    nth_handle_step-Bounded others zero t (h ∷ hs) w all bound = λ n.
        let now =
          handle_step-Bounded (λ m. others m + lives m hs) t h w all.0 (λ m. omega (arith, bound m))
            n in
        omega (arith, now)
    nth_handle_step-Bounded others (suc i) t (h ∷ hs) w all bound = λ n.
        let now =
          nth_handle_step-Bounded (λ m. others m + one_if (is_live m h)) i t hs w all.1
            (λ m. omega (arith, bound m)) n in
        omega (arith, now)

    pub nth_handle_step-HasBegun :
        (i : ℕ) (t : Turn) (hs : List Handle) (w : World)
        → All HasBegun hs
        → All HasBegun (nth_handle_step os i t hs w).0
    nth_handle_step-HasBegun i t [] w all = tt
    nth_handle_step-HasBegun zero t (h ∷ hs) w all = (step-Begun t h all.0, all.1)
    nth_handle_step-HasBegun (suc i) t (h ∷ hs) w all =
        (all.0, nth_handle_step-HasBegun i t hs w all.1)
