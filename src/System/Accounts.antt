-- ===== src/System/Accounts.antt =====
-- The descriptors that are open while the threads of a broker server run.
use net_utils.Base.{
  ℕ, zero, suc, ◌+◌, ◌≡◌, inl, inr, ap, ◌∙◌, Bool, true, false, List, [], ◌∷◌, ◌++◌, length, drop,
  drop_front, drop_whole, ℤ, arith,
}
use net_utils.Os.{Os, OsLaws}
use net_utils.Worker.{Turn, step, held_fd}
use net_utils.Worker.Closing.{is_fd}
use net_utils.Worker.Own.{step-Hands}
use net_utils.System.Descriptors.{close-is_open}
use net_utils.System.Threads.{Session, session_step, nth_step}

abbrev pub one_if : Bool → ℕ
one_if true = 1
one_if false = 0

-- How many of the sessions hold descriptor n in their context. A context whose descriptor has been
-- closed and not cleared yet names that number and holds nothing.
abbrev pub holders : ℕ → List Session → ℕ
holders n [] = 0
holders n (x ∷ xs) = one_if (is_fd n (held_fd x.worker)) + holders n xs

pub holders-append :
    (n : ℕ) (xs ys : List Session) → holders n (xs ++ ys) ≡ holders n xs + holders n ys
holders-append n [] ys = omega arith
holders-append n (x ∷ xs) ys = omega (arith, holders-append n xs ys)

-- No thread of the worker stands between `close` and the assignment after it.
abbrev pub Level : Session → Type 0
Level x = held_fd x.worker ≡ x.worker.client_fd

module _ {World : Type 0} (os : Os World) where
  -- Each descriptor is open if `others` hold it once or the sessions do, and never held twice.
  abbrev pub Accounted : (ℕ → ℕ) → List Session → World → Type 0
  Accounted others xs w = (n : ℕ) → one_if (os.is_open w n) ≡ others n + holders n xs

  module _ (laws : OsLaws os) where
    -- What closing a descriptor that one holder gives up leaves open.
    pub closed-Accounted :
        (fd : ℤ) (w : World) (n k : ℕ)
        → one_if (os.is_open w n) ≡ k + one_if (is_fd n fd)
        → one_if (os.is_open (os.close fd w) n) ≡ k
    closed-Accounted fd w n k e = ground (arith, close-is_open os laws fd w n)

    session_step-Accounted :
        (others : ℕ → ℕ) (t : Turn) (x : Session) (w : World)
        → ((n : ℕ) → one_if (os.is_open w n) ≡ others n + one_if (is_fd n (held_fd x.worker)))
        → (n : ℕ)
        → one_if (os.is_open (session_step os t x w).1 n)
          ≡ others n + one_if (is_fd n (held_fd (session_step os t x w).0.worker))
    session_step-Accounted others t x w acc n = elim (step-Hands t x.worker) [
      | inl (same, closed) ↦
          let none_closed : drop (length x.worker.closes) (step t x.worker).closes ≡ [] =
            ap (drop (length x.worker.closes)) closed ∙ drop_whole x.worker.closes in
          rw (none_closed, same) (acc n)
      | inr (gone, closed) ↦
          let one_closed : drop (length x.worker.closes) (step t x.worker).closes
              ≡ held_fd x.worker ∷ [] =
            ap (drop (length x.worker.closes)) closed
            ∙ drop_front x.worker.closes (held_fd x.worker ∷ []) in
          rw (one_closed, gone)
            (omega (arith, closed-Accounted (held_fd x.worker) w n (others n) (acc n)))
    ]

    pub nth_step-Accounted :
        (others : ℕ → ℕ) (i : ℕ) (t : Turn) (xs : List Session) (w : World)
        → Accounted others xs w
        → Accounted others (nth_step os i t xs w).0 (nth_step os i t xs w).1
    nth_step-Accounted others i t [] w acc = acc
    nth_step-Accounted others zero t (x ∷ xs) w acc = λ n. ground (
      arith,
      session_step-Accounted (λ m. others m + holders m xs) t x w (λ m. omega (arith, acc m)) n,
    )
    nth_step-Accounted others (suc i) t (x ∷ xs) w acc = λ n. omega (
      arith,
      nth_step-Accounted (λ m. others m + one_if (is_fd m (held_fd x.worker))) i t xs w
          (λ m. omega (arith, acc m)) n,
    )
