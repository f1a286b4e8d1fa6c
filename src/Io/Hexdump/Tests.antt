-- ===== src/Io/Hexdump/Tests.antt =====
-- Dumps of single bytes, of a full line, and of signed characters.
use net_utils.Base.{◌≡◌, refl, some, [], ◌∷◌, ◌++◌, negsuc, arith, length, replicate}
use net_utils.Io.Hexdump.{hexdump, dump_hex, entry}
use net_utils.Io.Hexdump.Reader.{read, start}
use net_utils.Io.Hexdump.Laws.{read-hexdump}

-- "0x0a 0xff "
two_bytes :
    hexdump (0x0a ∷ 0xff ∷ [])
    ≡ (b'0' ∷ b'x' ∷ b'0' ∷ b'a' ∷ b' ' ∷ []) ++ b'0' ∷ b'x' ∷ b'f' ∷ b'f' ∷ b' ' ∷ []
unfolding hexdump entry
two_bytes = refl

full_line : length (hexdump (replicate 16 7)) ≡ 81
unfolding hexdump entry
full_line = refl

-- -1 is dumped as 0xff.
minus_one : dump_hex (negsuc 0 ∷ []) ≡ b'0' ∷ b'x' ∷ b'f' ∷ b'f' ∷ b' ' ∷ []
unfolding dump_hex entry
minus_one = refl

read-hexdump_example : read start (hexdump (7 ∷ 200 ∷ [])) ≡ some (7 ∷ 200 ∷ [])
read-hexdump_example = read-hexdump (7 ∷ 200 ∷ []) (omega arith) (omega arith)
