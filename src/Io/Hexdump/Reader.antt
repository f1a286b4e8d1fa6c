-- ===== src/Io/Hexdump/Reader.antt =====
-- An independent reader of dumps, which the laws of `hexdump` speak of.
use mathlib.Core.Option
use net_utils.Base.{ℕ, ◌+◌, ◌-◌, ◌*◌, List, [], ◌∷◌, Option, none, some, ltb, ◌==◌, if◌then◌else◌}
use net_utils.Io.Hexdump.{newline}

unfoldable pub undigit : ℕ → ℕ
undigit c = if ltb c b'a' then c - b'0' else c - b'a' + 10

-- What the reader expects next; `low` has read the high digit.
pub data Phase : Type 0 where
  start zero_read high space : Phase
  low : ℕ → Phase

unfoldable pub read : Phase → List ℕ → Option (List ℕ)
unfolding undigit
read start [] = some []
read start (c ∷ text) =
    let line = read start text in
    let next = read zero_read text in
    if c == newline then line else if c == b'0' then next else none
read zero_read (c ∷ text) = let next = read high text in if c == b'x' then next else none
read high (c ∷ text) = read (low c) text
read (low h) (c ∷ text) =
    Option.map (λ bytes. (16 * undigit h + undigit c) ∷ bytes) (read space text)
read space (c ∷ text) = let next = read start text in if c == b' ' then next else none
read _ [] = none
