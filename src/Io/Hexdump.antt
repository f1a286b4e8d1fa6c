-- ===== src/Io/Hexdump.antt =====
-- src/NetUtils/IOHelper.cpp, `IOHelper::hexdump`, and its twin `ThreadsClientHandle::dumpHex` in
-- src/NetUtils/services/tcp/multi_threads/ThreadsClientHandle.cpp. Texts are lists of codes.
mod Reader
pub mod Laws
mod Tests
use net_utils.Base.{
  ℕ, suc, ◌+◌, ◌-◌, ◌/◌, ◌%◌, List, [], ◌∷◌, ◌++◌, ℤ, to_unsigned, ltb, ◌==◌, if◌then◌else◌, length,
  replicate,
}

abbrev pub newline : ℕ
newline = 10

-- A digit under `std::hex`.
pub digit : ℕ → ℕ
digit d = if ltb d 10 then b'0' + d else b'a' + (d - 10)

-- What the stream makes of a number below 256 under `std::hex`.
pub hex : ℕ → List ℕ
unfolding digit
hex v = if ltb v 16 then digit v ∷ [] else digit (v / 16) ∷ digit (v % 16) ∷ []

-- `std::setw(width) << std::setfill(fill)`: the text is filled up from the left.
pub padded : ℕ → ℕ → List ℕ → List ℕ
padded width fill text = replicate (width - length text) fill ++ text

-- What one round of the loop writes: `v` is `(int)data[i] & 0xff`.
pub entry : ℕ → List ℕ
unfolding hex padded
entry v = b'0' ∷ b'x' ∷ padded 2 b'0' (hex v) ++ b' ' ∷ []

-- The loop from round `i` on. The `int` index of the source does not overflow when the buffer has
-- fewer than 2^31 elements; what happens beyond is not modelled.
pub dump_loop : ℕ → List ℕ → List ℕ
dump_loop i [] = []
dump_loop i (b ∷ bytes) =
    (entry (b % 256) ++ (if (i + 1) % 16 == 0 then newline ∷ [] else [])) ++ dump_loop (i + 1) bytes

-- `hexdump(buffer, len)`: the elements are `unsigned char`.
pub hexdump : List ℕ → List ℕ
unfolding dump_loop
hexdump bytes = dump_loop 0 bytes

-- The loop of `dumpHex`: the elements are `char`, which is signed.
pub dump_hex_loop : ℕ → List ℤ → List ℕ
dump_hex_loop i [] = []
dump_hex_loop i (c ∷ chars) =
    (entry (to_unsigned 32 c % 256) ++ (if (i + 1) % 16 == 0 then newline ∷ [] else []))
    ++ dump_hex_loop (i + 1) chars

pub dump_hex : List ℤ → List ℕ
unfolding dump_hex_loop
dump_hex chars = dump_hex_loop 0 chars
