-- ===== src/System/Lifetimes/Picks.antt =====
-- The threads of ThreadsTcpBroProcessor.cpp whose `doWork` is back.
use net_utils.Base.{
  ℕ, zero, suc, ◌≡◌, ◌⊎◌, inl, inr, refl, true, Bool-cases, List, [], ◌∷◌, none, some,
}
use net_utils.System.Threads.{Session}
use net_utils.System.Lifetimes.{is_over, pick}

-- One session, whose `doWork` is back, taken out of a list.
pub data Picks (x : Session) : List Session → List Session → Type 0 where
  here : {xs : List Session} → is_over x.worker.main ≡ true → Picks x xs (x ∷ xs)
  there : {y : Session} {rest xs : List Session} → Picks x rest xs → Picks x (y ∷ rest) (y ∷ xs)

pub pick-Picks :
    (i : ℕ) (xs : List Session)
    → (pick i xs ≡ none)
      ⊎ ((x : Session) × (rest : List Session) × (pick i xs ≡ some (x, rest)) × Picks x rest xs)
pick-Picks i [] = inl refl
pick-Picks zero (x ∷ xs) = elim (Bool-cases (is_over x.worker.main)) [
  | inl over ↦ inr (x, xs, rw over refl, here over)
  | inr not_yet ↦ inl (rw not_yet refl)
]
pick-Picks (suc i) (y ∷ xs) = elim (pick-Picks i xs) [
  | inl e ↦ inl (rw e refl)
  | inr (x, rest, e, picks) ↦ inr (x, y ∷ rest, rw e refl, there picks)
]
