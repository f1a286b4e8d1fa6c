-- ===== src/Print/Reader.antt =====
-- A reader for the texts that the program prints, written apart from the printer.
use net_utils.Base.{
  ℕ, ◌+◌, ◌-◌, ◌*◌, List, [], ◌∷◌, Bool, ◌==◌, ltb, ◌||◌, if◌then◌else◌, Option, none, some, ℤ, pos,
  negsuc,
}

abbrev pub not_digit : ℕ → Bool
not_digit c = ltb c b'0' || ltb b'9' c

-- The number at the front of a text, after what was read of it, and the rest.
unfoldable pub read : ℕ → List ℕ → ℕ × List ℕ
read n [] = (n, [])
read n (c ∷ s) = let rest = read (n * 10 + (c - b'0')) s in if not_digit c then (n, c ∷ s) else rest

abbrev pub negated : ℕ × List ℕ → ℤ × List ℕ
negated (n, s) = (negsuc (n - 1), s)

abbrev pub unsigned : ℕ × List ℕ → ℤ × List ℕ
unsigned (n, s) = (pos n, s)

unfoldable pub read_int : List ℕ → ℤ × List ℕ
unfolding read
read_int [] = (pos 0, [])
read_int (c ∷ s) = if c == b'-' then negated (read 0 s) else unsigned (read 0 (c ∷ s))

-- What follows a prefix.
unfoldable pub strip : List ℕ → List ℕ → Option (List ℕ)
strip [] s = some s
strip (p ∷ prefix) [] = none
strip (p ∷ prefix) (c ∷ s) = let rest = strip prefix s in if p == c then rest else none

-- What stands before the first character c, and what follows from there.
unfoldable pub until : ℕ → List ℕ → List ℕ × List ℕ
until c [] = ([], [])
until c (d ∷ s) = let (front, rest) = until c s in if d == c then ([], d ∷ s) else (d ∷ front, rest)

infixl 5 ◌>>=◌
abbrev pub ◌>>=◌ : {A B : Type 0} → Option A → (A → Option B) → Option B
none >>= f = none
some a >>= f = f a
